-- ===== src/Node/Locking.antt =====
-- The loop that both a leader and a backup run before a transaction: try to take the locks of the
-- two clients, and after a failure sleep and try again. What the other goroutines do to the node
-- during each sleep is an argument, a list with one function for each sleep.
pub mod Waiting
use pbft_2pc.Prelude.{String, Bool, Option, none, some, List, [], ◌∷◌, ok, err, panic}
use pbft_2pc.Messages.{Transaction}
use pbft_2pc.Deps.{Bolt}
use pbft_2pc.Db.Locks.{check_and_get_locks, release_locks_db}
use pbft_2pc.Node.{Node}

abbrev pub clients_of : Transaction → List String
clients_of t = t.from ∷ t.to ∷ []

module _ ⦃bolt : Bolt⦄ where
  -- `none` while the goroutine still waits when the sleeps of the list are over.
  unfoldable pub acquire_locks :
      List (Node → Node) → List String → (Node → Bool) → Node → Option Node
  acquire_locks [] clients byz n =
      let (r, d) = check_and_get_locks clients (byz n) n.db in
      elim r [ ok done ↦ some (record n { db = d }) | err text ↦ none | panic ↦ none ]
  acquire_locks (sleep ∷ sleeps) clients byz n =
      let (r, d) = check_and_get_locks clients (byz n) n.db in
      elim r [
        | ok done ↦ some (record n { db = d })
        | err text ↦ acquire_locks sleeps clients byz (sleep n)
        | panic ↦ none
      ]

  unfoldable pub release_locks : Transaction → Node → Node
  release_locks t n = record n { db = release_locks_db (clients_of t) n.db }

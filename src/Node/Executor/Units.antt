-- ===== src/Node/Executor/Units.antt =====
-- What the executor does with one unit, and with some units in order, to the database of a node.
use pbft_2pc.Prelude.{
  ap, ◌∙◌, String, string_eq, Int64, add64, true, false, not, List, [], ◌∷◌, All, ◌==◌,
  if◌then◌else◌, ◌||◌, Result, ok, err, panic, ◌≡◌, refl, arith, Bool-cases, inl, inr,
}
use pbft_2pc.Messages.{Transaction}
use pbft_2pc.Deps.{Bolt, Codec}
use pbft_2pc.Deps.{WalEntry}
use pbft_2pc.Db.{Database}
use pbft_2pc.Db.Locks.{release_locks_db}
use pbft_2pc.Db.Wal.{read_wal_entry}
use pbft_2pc.Node.Locking.{clients_of}
use pbft_2pc.Node.Executor.{undo_all}
use pbft_2pc.Db.Balances.{get_balance, update_balances}
use pbft_2pc.Db.Balances.Effect.{adjusted, map_result, get_balance-update_balances}
use pbft_2pc.Node.{Node, DbUnit, emit}
use pbft_2pc.Node.Locking.{release_locks}
use pbft_2pc.Node.Executor.{execute_datastore_log, announce, undo_wal}

pub map_result-id : (r : Result Int64) → r ≡ map_result (λ b. b) r
map_result-id (ok b) = refl
map_result-id (err e) = refl
map_result-id panic = refl

pub map_result-twice :
    (g h : Int64 → Int64) (r : Result Int64)
    → map_result g (map_result h r) ≡ map_result (λ b. g (h b)) r
map_result-twice g h (ok b) = refl
map_result-twice g h (err e) = refl
map_result-twice g h panic = refl

-- What one unit that does not abort does to a balance.
abbrev pub change : DbUnit → Transaction → String → Int64 → Int64
change u t j = if u.status == "" || u.status == "P" then adjusted t j else λ b. b

-- The balance of a client after some units, none of which aborts: those of status "" and "P" are
-- transfers, and "C" ends a transfer that was made before.
abbrev pub adjusted_all : List (DbUnit × Transaction) → String → Int64 → Int64
adjusted_all [] j b = b
adjusted_all ((u, t) ∷ us) j b = adjusted_all us j (change u t j b)

-- None of the units aborts.
abbrev pub NoAbort : List (DbUnit × Transaction) → Type 0
NoAbort us = All (λ p. (p.0.status == "A") ≡ false) us

module _ ⦃bolt : Bolt⦄ ⦃codec : Codec⦄ where
  abbrev pub undone_by : Result WalEntry → Database → Database
  undone_by (ok entry) d = undo_all entry.logs d
  undone_by (err text) d = d
  undone_by panic d = d

  -- The database after the logs of a transaction were taken back.
  abbrev pub undone : Int64 → Database → Database
  undone client_seq d = undone_by (read_wal_entry client_seq d) d

  -- The database after one unit: "P" and "" move the money, "A" takes it back, "C" moves none, and all
  -- but "P" release the locks.
  abbrev pub executed : String → Int64 → Transaction → Database → Database
  executed status client_seq t d =
      let d' =
        if status == "" || status == "P"
        then update_balances t d
        else if status == "A"
        then undone client_seq d
        else d in
      if not (status == "P") then release_locks_db (clients_of t) d' else d'

  undo_wal_by :
      (r : Result WalEntry) (n : Node)
      → (elim r [
        | ok entry ↦ record n { db = undo_all entry.logs n.db }
        | err text ↦ n
        | panic ↦ n
      ])
        ≡ record n { db = undone_by r n.db }
  undo_wal_by (ok entry) n = refl
  undo_wal_by (err text) n = refl
  undo_wal_by panic n = refl

  undo_wal-eq :
      (client_seq : Int64) (n : Node)
      → undo_wal client_seq n ≡ record n { db = undone client_seq n.db }
  unfolding undo_wal
  undo_wal-eq client_seq n = undo_wal_by (read_wal_entry client_seq n.db) n

  execute_datastore_log-eq :
      (u : DbUnit) (t : Transaction) (n : Node)
      → execute_datastore_log u t n ≡ record n {
        db = executed u.status u.client_seq t n.db;
        execution_count = add64 n.execution_count 1;
      }
  unfolding execute_datastore_log release_locks
  execute_datastore_log-eq u t n = elim (Bool-cases (u.status == "" || u.status == "P")) [
    | inl moves ↦ elim (Bool-cases (not (u.status == "P"))) [
      | inl free ↦ rw (moves, free) refl
      | inr held ↦ rw (moves, held) refl
    ]
    | inr rests ↦
        (let free : not (u.status == "P") ≡ true = ground (arith, rests) in
          elim (Bool-cases (u.status == "A")) [
            | inl aborts ↦ rw (rests, free, aborts, undo_wal-eq u.client_seq n) refl
            | inr commits ↦ rw (rests, free, commits) refl
          ])
  ]

  -- One round of the executor on a unit that is there.
  abbrev pub run_unit : DbUnit → Transaction → Node → Node
  run_unit u t n =
      let n' = announce u t (execute_datastore_log u t n) in
      record n' { executor_seq = add64 n'.executor_seq 1 }

  announce_keeps :
      (u : DbUnit) (t : Transaction) (n : Node)
      → ((announce u t n).datastore ≡ n.datastore)
        × ((announce u t n).executor_seq ≡ n.executor_seq)
        × ((announce u t n).db ≡ n.db)
  unfolding announce emit
  announce_keeps u t n = elim (Bool-cases (u.status == "" || u.status == "C")) [
    | inl done ↦ rw done (refl, refl, refl)
    | inr other ↦ elim (Bool-cases (u.status == "A")) [
      | inl aborted ↦ rw (other, aborted) (refl, refl, refl)
      | inr prepared ↦ rw (other, prepared) (refl, refl, refl)
    ]
  ]

  pub run_unit_effect :
      (u : DbUnit) (t : Transaction) (n : Node)
      → ((run_unit u t n).datastore ≡ n.datastore)
        × ((run_unit u t n).executor_seq ≡ add64 n.executor_seq 1)
        × ((run_unit u t n).db ≡ executed u.status u.client_seq t n.db)
  run_unit_effect u t n =
      let (units, next, db) = announce_keeps u t (execute_datastore_log u t n) in
      let all = execute_datastore_log-eq u t n in
      (
        units ∙ ap (λ (m : Node). m.datastore) all,
        ap (λ i. add64 i 1) (next ∙ ap (λ (m : Node). m.executor_seq) all),
        db ∙ ap (λ (m : Node). m.db) all,
      )

  -- The database after some units in order.
  abbrev pub executed_all : List (DbUnit × Transaction) → Database → Database
  executed_all [] d = d
  executed_all ((u, t) ∷ us) d = executed_all us (executed u.status u.client_seq t d)

  pub get_balance-release_locks_db :
      (ks : List String) (j : String) (d : Database)
      → get_balance j (release_locks_db ks d) ≡ get_balance j d
  unfolding release_locks_db get_balance
  get_balance-release_locks_db ks j d = refl

  pub get_balance-executed :
      (u : DbUnit) (t : Transaction) (j : String) (d : Database)
      → (u.status == "A") ≡ false
      → get_balance j (executed u.status u.client_seq t d)
        ≡ map_result (change u t j) (get_balance j d)
  get_balance-executed u t j d kept = elim (Bool-cases (u.status == "" || u.status == "P")) [
    | inl moves ↦ elim (Bool-cases (not (u.status == "P"))) [
      | inl free ↦
          rw (moves, free, get_balance-release_locks_db) (get_balance-update_balances t j d)
      | inr held ↦ rw (moves, held) (get_balance-update_balances t j d)
    ]
    | inr rests ↦
        (let free : not (u.status == "P") ≡ true = ground (arith, rests) in
          rw (rests, free, kept, get_balance-release_locks_db) (map_result-id (get_balance j d)))
  ]

  pub get_balance-executed_all :
      (us : List (DbUnit × Transaction)) (j : String) (d : Database)
      → NoAbort us
      → get_balance j (executed_all us d) ≡ map_result (adjusted_all us j) (get_balance j d)
  get_balance-executed_all [] j d _ = map_result-id (get_balance j d)
  get_balance-executed_all ((u, t) ∷ us) j d (kept, rest) =
      get_balance-executed_all us j (executed u.status u.client_seq t d) rest
      ∙ ap (map_result (adjusted_all us j)) (get_balance-executed u t j d kept)
      ∙ map_result-twice (adjusted_all us j) (change u t j) (get_balance j d)

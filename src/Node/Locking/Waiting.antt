-- ===== src/Node/Locking/Waiting.antt =====
-- The loop that waits for locks ends once they are free, and what holds then.
use mathlib.Core.Option.{some-injective}
use pbft_2pc.Prelude.{
  ap, ◌++◌, sym, ◌∙◌, String, string_eq, Bool, true, false, not, ◌&&◌, none, some, List, [], ◌∷◌,
  ◌≡◌, refl, contains, Bool-cases, inl, inr, arith,
}
use pbft_2pc.Messages.{Transaction}
use pbft_2pc.Deps.{Bolt}
use pbft_2pc.Db.Locks.{get_locks_db}
use pbft_2pc.Db.Locks.Exclusion.{
  is_locked, some_of, check_and_get_locks_taken, check_and_get_locks_free,
  is_locked-release_locks_db,
}
use pbft_2pc.Node.{Node}
use pbft_2pc.Node.Locking.{clients_of, acquire_locks, release_locks}

module _ ⦃bolt : Bolt⦄ where
  -- Is one of the clients locked at a node?
  abbrev pub are_taken : List String → Node → Bool
  are_taken clients n = some_of (λ k. is_locked k n.db) clients

  -- The node after some sleeps.
  abbrev pub after_sleeps : List (Node → Node) → Node → Node
  after_sleeps [] n = n
  after_sleeps (sleep ∷ sleeps) n = after_sleeps sleeps (sleep n)

  -- The node once an honest caller has taken the locks.
  abbrev with_locks : List String → Node → Node
  with_locks clients n = record n { db = get_locks_db clients n.db }

  -- The locks are granted in the state that some of the sleeps, the first ones, leave of a node, and
  -- nothing else is changed.
  abbrev pub Granted : List (Node → Node) → List String → Node → Node → Type 0
  Granted sleeps clients n n' =
      (before : List (Node → Node)) × (after : List (Node → Node)) × (sleeps ≡ before ++ after)
      × (are_taken clients (after_sleeps before n) ≡ false)
      × (n' ≡ with_locks clients (after_sleeps before n))

  later-Granted :
      (sleep : Node → Node) (sleeps : List (Node → Node)) (clients : List String) (n n' : Node)
      → Granted sleeps clients (sleep n) n'
      → Granted (sleep ∷ sleeps) clients n n'
  later-Granted sleep sleeps clients n n' (before, after, split, free, locked) =
      (sleep ∷ before, after, ap (λ l. sleep ∷ l) split, free, locked)

  acquire_free :
      (sleeps : List (Node → Node)) (clients : List String) (n : Node)
      → are_taken clients n ≡ false
      → acquire_locks sleeps clients (λ _. false) n ≡ some (with_locks clients n)
  unfolding acquire_locks
  acquire_free [] clients n free = ground (arith, check_and_get_locks_free clients false n.db free)
  acquire_free (sleep ∷ sleeps) clients n free =
      ground (arith, check_and_get_locks_free clients false n.db free)

  acquire_taken :
      (sleep : Node → Node) (sleeps : List (Node → Node)) (clients : List String) (n : Node)
      → are_taken clients n ≡ true
      → acquire_locks (sleep ∷ sleeps) clients (λ _. false) n
        ≡ acquire_locks sleeps clients (λ _. false) (sleep n)
  unfolding acquire_locks
  acquire_taken sleep sleeps clients n taken =
      ground (arith, check_and_get_locks_taken clients false n.db taken)

  acquire_late :
      (clients : List String) (n : Node)
      → are_taken clients n ≡ true
      → acquire_locks [] clients (λ _. false) n ≡ none
  unfolding acquire_locks
  acquire_late clients n taken = ground (arith, check_and_get_locks_taken clients false n.db taken)

  unlocked_case :
      (sleeps : List (Node → Node)) (clients : List String) (n n' : Node)
      → are_taken clients n ≡ false
      → acquire_locks sleeps clients (λ _. false) n ≡ some n'
      → Granted sleeps clients n n'
  unlocked_case sleeps clients n n' free h =
      ([], sleeps, refl, free, some-injective _ _ (sym h ∙ acquire_free sleeps clients n free))

  -- An honest caller whose loop has ended took the locks in the state that the first of the sleeps, or
  -- none of them, had left, in which none of the clients was locked, and it changed nothing of that
  -- state but the locks.
  pub acquire_locks-Granted :
      (sleeps : List (Node → Node)) (clients : List String) (n n' : Node)
      → acquire_locks sleeps clients (λ _. false) n ≡ some n'
      → Granted sleeps clients n n'
  acquire_locks-Granted [] clients n n' h = elim (Bool-cases (are_taken clients n)) [
    | inl taken ↦ let late = acquire_late clients n taken in absurd (cc)
    | inr free ↦ unlocked_case [] clients n n' free h
  ]
  acquire_locks-Granted (sleep ∷ sleeps) clients n n' h = elim (Bool-cases (are_taken clients n)) [
    | inl taken ↦ later-Granted sleep sleeps clients n n' (
        acquire_locks-Granted sleeps clients (sleep n) n'
          (sym (acquire_taken sleep sleeps clients n taken) ∙ h))
    | inr free ↦ unlocked_case (sleep ∷ sleeps) clients n n' free h
  ]

  -- The loop ends when the clients are free after its last sleep, if it has not ended before: then the
  -- locks were granted.
  pub acquire_locks_ends :
      (sleeps : List (Node → Node)) (clients : List String) (n : Node)
      → are_taken clients (after_sleeps sleeps n) ≡ false
      → (n' : Node) × (acquire_locks sleeps clients (λ _. false) n ≡ some n')
        × Granted sleeps clients n n'
  acquire_locks_ends [] clients n free =
      (with_locks clients n, acquire_free [] clients n free, ([], [], refl, free, refl))
  acquire_locks_ends (sleep ∷ sleeps) clients n later = elim (Bool-cases (are_taken clients n)) [
    | inl taken ↦
        let (n', ends, locked) = acquire_locks_ends sleeps clients (sleep n) later in
        (
          n',
          acquire_taken sleep sleeps clients n taken ∙ ends,
          later-Granted sleep sleeps clients n n' locked,
        )
    | inr free ↦ (
      with_locks clients n,
      acquire_free (sleep ∷ sleeps) clients n free,
      ([], sleep ∷ sleeps, refl, free, refl),
    )
  ]

  -- Once a transaction's locks are released its two clients are free, and no other client is.
  pub is_locked-release_locks :
      (t : Transaction) (j : String) (n : Node)
      → is_locked j (release_locks t n).db ≡ (is_locked j n.db && not (contains (clients_of t) j))
  unfolding release_locks
  is_locked-release_locks t j n = is_locked-release_locks_db (clients_of t) j n.db

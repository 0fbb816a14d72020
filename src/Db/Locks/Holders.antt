-- ===== src/Db/Locks/Holders.antt =====
-- The rounds that hold locks on one node, as a step relation: CheckAndGetLocks, which the callers run
-- under a mutex, and ReleaseLocksDB by a holder.
use mathlib.Core.List.{Permᴰ}
use pbft_2pc.Prelude.{
  ◌∙◌, ℕ, String, string_eq, Bool, true, false, ok, err, List, [], ◌∷◌, if◌then◌else◌, ◌≡◌, refl,
  arith, contains, count, eq_iff, ◌==◌, Bool-cases, inl, inr,
}
use pbft_2pc.Deps.{Bolt}
use pbft_2pc.Db.{Database}
use pbft_2pc.Db.Locks.{check_and_get_locks, release_locks_db}
use pbft_2pc.Db.Locks.Exclusion.{
  some_of, is_locked, check_and_get_locks-Locks, is_locked-release_locks_db,
}

module _ ⦃bolt : Bolt⦄ where
  -- The database, and the clients of each round that holds its locks.
  abbrev pub Lockers : Type 0
  Lockers = Database × List (List String)

  -- One thing that happens to the locks.
  pub data LockStep : Lockers → Lockers → Type 0 where
    take :
        (ks : List String) {d d' : Database} {hs : List (List String)}
        → check_and_get_locks ks false d ≡ (ok tt, d')
        → LockStep (d, hs) (d', ks ∷ hs)
    refuse :
        (ks : List String) (byz : Bool) {text : String} {d d' : Database} {hs : List (List String)}
        → check_and_get_locks ks byz d ≡ (err text, d')
        → LockStep (d, hs) (d', hs)
    release :
        (ks : List String) {d : Database} {hs hs' : List (List String)}
        → Permᴰ hs (ks ∷ hs')
        → LockStep (d, hs) (release_locks_db ks d, hs')

  -- Any number of steps.
  pub data Reach : Lockers → Lockers → Type 0 where
    stop : {s : Lockers} → Reach s s
    step : {s s' s'' : Lockers} → LockStep s s' → Reach s' s'' → Reach s s''

  -- How many holders have a client.
  abbrev pub holders_of : String → List (List String) → ℕ
  holders_of k hs = count (λ ks. contains ks k) hs

  -- A client is locked while one round holds it, and no two rounds hold it.
  abbrev pub IsHeldOnce : String → Lockers → Type 0
  IsHeldOnce k (d, hs) = holders_of k hs ≡ (if is_locked k d then 1 else 0)

  holders_of-Permᴰ :
      (k : String) {hs hs' : List (List String)} → Permᴰ hs hs' → holders_of k hs ≡ holders_of k hs'
  holders_of-Permᴰ k Permᴰ.nil = refl
  holders_of-Permᴰ k (Permᴰ.cons e p) = rw e (ground (arith, holders_of-Permᴰ k p))
  holders_of-Permᴰ k (Permᴰ.swap e e') = rw (e, e') (ground arith)
  holders_of-Permᴰ k (Permᴰ.trans p q) = holders_of-Permᴰ k p ∙ holders_of-Permᴰ k q

  some_of-contains :
      (p : String → Bool) (ks : List String) (k : String)
      → some_of p ks ≡ false
      → contains ks k ≡ true
      → p k ≡ false
  some_of-contains p [] k none_of member = absurd (cc)
  some_of-contains p (x ∷ xs) k none_of member = elim (Bool-cases (k == x)) [
    | inl same ↦ rw ((eq_iff k x).0 same) (ground arith)
    | inr other ↦ some_of-contains p xs k (ground arith) (ground arith)
  ]

  LockStep-IsHeldOnce :
      (k : String) {s s' : Lockers}
      → bolt.accepts k ≡ true
      → LockStep s s'
      → IsHeldOnce k s
      → IsHeldOnce k s'
  LockStep-IsHeldOnce k accepted (LockStep.take ks {d} {d'} {hs} e) held =
      let (free, reads, _) = rw e at (check_and_get_locks-Locks ks false d) in
      elim (Bool-cases (contains ks k)) [
        | inl member ↦
            (let unlocked = some_of-contains (λ j. is_locked j d) ks k free member in
              ground (arith, held, unlocked, reads k, member, accepted))
        | inr other ↦ ground (arith, held, reads k, other)
      ]
  LockStep-IsHeldOnce k accepted (LockStep.refuse ks byz {text} {d} {d'} {hs} e) held =
      let (_, same) = rw e at (check_and_get_locks-Locks ks byz d) in rw same held
  LockStep-IsHeldOnce k accepted (LockStep.release ks {d} {hs} {hs'} perm) held =
      ground (arith, holders_of-Permᴰ k perm, held, is_locked-release_locks_db ks k d)

  Reach-IsHeldOnce :
      (k : String) {s s' : Lockers}
      → bolt.accepts k ≡ true
      → Reach s s'
      → IsHeldOnce k s
      → IsHeldOnce k s'
  Reach-IsHeldOnce k accepted Reach.stop held = held
  Reach-IsHeldOnce k accepted (Reach.step first rest) held =
      Reach-IsHeldOnce k accepted rest (LockStep-IsHeldOnce k accepted first held)

  -- From a database without locks, after any steps in any order, each of which is a request for the
  -- locks of some clients by an honest node that gets them, a request that is refused, or the release
  -- by a holder of the locks that it got: a client whose name the store accepts as a key is held by
  -- one holder if it is locked, and by none if it is not.
  pub holders_exclude :
      (k : String) (d : Database) (s : Lockers)
      → bolt.accepts k ≡ true
      → is_locked k d ≡ false
      → Reach (d, []) s
      → IsHeldOnce k s
  holders_exclude k d s accepted free steps =
      Reach-IsHeldOnce k accepted steps (ground (arith, free))

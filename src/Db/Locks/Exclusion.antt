-- ===== src/Db/Locks/Exclusion.antt =====
-- Locks exclude one another: who holds which lock after each operation on them.
use pbft_2pc.Prelude.{
  String, string_eq, Result, ok, err, panic, none, some, List, [], ◌∷◌, Bool, true, false, ◌&&◌,
  ◌||◌, not, ◌≡◌, refl, if◌then◌else◌, ◌==◌, contains, Bool-cases, inl, inr, arith, eq_iff,
}
use pbft_2pc.Deps.{Bolt}
use pbft_2pc.Db.{Database}
use pbft_2pc.Db.Locks.{
  delete_all, release_locks_db, put_lock, put_locks, get_locks_db, check_locks, check_locks_db,
  check_and_get_locks,
}

-- Does one of the names pass the test?
abbrev pub some_of : (String → Bool) → List String → Bool
some_of p [] = false
some_of p (x ∷ xs) = p x || some_of p xs

module _ ⦃bolt : Bolt⦄ where
  abbrev has_key : String → bolt.Bucket String → Bool
  has_key k b = elim (bolt.get k b) [ none ↦ false | some v ↦ true ]

  abbrev pub is_locked : String → Database → Bool
  is_locked k d = has_key k d.locks

  has_key-put_lock :
      (k j : String) (b : bolt.Bucket String)
      → has_key j (put_lock k b) ≡ (has_key j b || (j == k && bolt.accepts k))
  unfolding put_lock
  has_key-put_lock k j b = elim (Bool-cases (bolt.accepts k)) [
    | inl good ↦
        let (b', e, reads) = bolt.put-accepted k "true" b good in
        ground (arith, e, reads j, eq_iff k j, eq_iff j k)
    | inr bad ↦ ground (arith, bolt.put-refused k "true" b bad)
  ]

  has_key-put_locks :
      (ks : List String) (j : String) (b : bolt.Bucket String)
      → has_key j (put_locks ks b) ≡ (has_key j b || (contains ks j && bolt.accepts j))
  unfolding put_locks
  has_key-put_locks [] j b = ground arith
  has_key-put_locks (k ∷ ks) j b =
      ground (arith, has_key-put_locks ks j (put_lock k b), has_key-put_lock k j b, eq_iff j k)

  has_key-delete_all :
      (ks : List String) (j : String) (b : bolt.Bucket String)
      → has_key j (delete_all ks b) ≡ (has_key j b && not (contains ks j))
  unfolding delete_all
  has_key-delete_all [] j b = ground arith
  has_key-delete_all (k ∷ ks) j b = ground (
    arith,
    has_key-delete_all ks j (bolt.delete k b),
    bolt.get-delete k j b,
    eq_iff j k,
    eq_iff k j,
  )

  check_locks_lem :
      (ks : List String) (b : bolt.Bucket String)
      → check_locks ks b ≡ (if some_of (λ k. has_key k b) ks then err "already locked" else ok tt)
  unfolding check_locks
  check_locks_lem [] b = refl
  check_locks_lem (k ∷ ks) b = ground (arith, check_locks_lem ks b)

  -- What a request for the locks of `ks` that starts at `d` has come to.
  abbrev pub Locks : List String → Bool → Database → Result (Unit {0}) × Database → Type 0
  Locks ks byz d (ok _, d') =
      (some_of (λ k. is_locked k d) ks ≡ false)
      × ((j : String)
          → is_locked j d' ≡ (is_locked j d || (not byz && contains ks j && bolt.accepts j)))
      × (record d { locks = d'.locks } ≡ d')
  Locks ks byz d (err _, d') = (some_of (λ k. is_locked k d) ks ≡ true) × (d' ≡ d)
  Locks ks byz d (panic, d') = ⊥

  granted :
      (ks : List String) (byz : Bool) (d : Database)
      → let d' = if byz then d else get_locks_db ks d in
        ((j : String)
          → is_locked j d' ≡ (is_locked j d || (not byz && contains ks j && bolt.accepts j)))
        × (record d { locks = d'.locks } ≡ d')
  unfolding get_locks_db
  granted ks true d = (λ j. ground arith, refl)
  granted ks false d = (λ j. has_key-put_locks ks j d.locks, refl)

  pub check_and_get_locks_taken :
      (ks : List String) (byz : Bool) (d : Database)
      → some_of (λ k. is_locked k d) ks ≡ true
      → check_and_get_locks ks byz d ≡ (err "already locked", d)
  unfolding check_and_get_locks check_locks_db
  check_and_get_locks_taken ks byz d taken =
      rw (check_locks_lem ks d.locks, taken, check_and_get_locks) refl

  pub check_and_get_locks_free :
      (ks : List String) (byz : Bool) (d : Database)
      → some_of (λ k. is_locked k d) ks ≡ false
      → check_and_get_locks ks byz d ≡ (ok tt, if byz then d else get_locks_db ks d)
  unfolding check_and_get_locks check_locks_db
  check_and_get_locks_free ks byz d free =
      rw (check_locks_lem ks d.locks, free, check_and_get_locks) refl

  pub is_locked-get_locks_db :
      (ks : List String) (j : String) (d : Database)
      → is_locked j (get_locks_db ks d) ≡ (is_locked j d || (contains ks j && bolt.accepts j))
  unfolding get_locks_db
  is_locked-get_locks_db ks j d = has_key-put_locks ks j d.locks

  -- CheckAndGetLocks takes all the locks or none. It succeeds exactly if none of the clients is
  -- locked; then an honest node has locked these clients (each whose name the store accepts as a
  -- key) and no other, a Byzantine one has locked nothing, and only the bucket of locks changes.
  -- If it fails nothing changes.
  pub check_and_get_locks-Locks :
      (ks : List String) (byz : Bool) (d : Database) → Locks ks byz d (check_and_get_locks ks byz d)
  check_and_get_locks-Locks ks byz d = elim (Bool-cases (some_of (λ k. is_locked k d) ks)) [
    | inl taken ↦ rw (check_and_get_locks_taken ks byz d taken) (taken, refl)
    | inr free ↦
        rw (check_and_get_locks_free ks byz d free) (let g = granted ks byz d in (free, g.0, g.1))
  ]

  -- Releasing frees the listed clients and no other.
  pub is_locked-release_locks_db :
      (ks : List String) (j : String) (d : Database)
      → is_locked j (release_locks_db ks d) ≡ (is_locked j d && not (contains ks j))
  unfolding release_locks_db
  is_locked-release_locks_db ks j d = has_key-delete_all ks j d.locks

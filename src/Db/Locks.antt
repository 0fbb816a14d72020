-- ===== src/Db/Locks.antt =====
-- db/locks.go: a client is locked while its name is a key of the bucket `locks`.
pub mod Exclusion
pub mod Holders
use pbft_2pc.Prelude.{
  String, string_eq, Result, ok, err, panic, none, some, List, [], ◌∷◌, Bool, if◌then◌else◌, map,
}
use pbft_2pc.Deps.{Bolt}
use pbft_2pc.Db.{Database}

module _ ⦃bolt : Bolt⦄ where
  -- `for _, client := range clients { bucket.Delete(client) }`
  unfoldable pub delete_all : List String → bolt.Bucket String → bolt.Bucket String
  delete_all [] b = b
  delete_all (client ∷ clients) b = delete_all clients (bolt.delete client b)

  unfoldable pub release_locks_db : List String → Database → Database
  unfolding delete_all
  release_locks_db clients d = record d { locks = delete_all clients d.locks }

  -- `bucket.Put(client, "true")`, its error ignored
  unfoldable pub put_lock : String → bolt.Bucket String → bolt.Bucket String
  put_lock client b = elim (bolt.put client "true" b) [ none ↦ b | some b' ↦ b' ]

  unfoldable pub put_locks : List String → bolt.Bucket String → bolt.Bucket String
  unfolding put_lock
  put_locks [] b = b
  put_locks (client ∷ clients) b = put_locks clients (put_lock client b)

  unfoldable pub get_locks_db : List String → Database → Database
  unfolding put_locks
  get_locks_db clients d = record d { locks = put_locks clients d.locks }

  -- The loop of `CheckLocksDB`: an error at the first client that is locked. Its parameter `seq` is
  -- not used.
  unfoldable pub check_locks : List String → bolt.Bucket String → Result (Unit {0})
  check_locks [] b = ok tt
  check_locks (client ∷ clients) b =
      let rest = check_locks clients b in
      elim (bolt.get client b) [ none ↦ rest | some locked ↦ err "already locked" ]

  unfoldable pub check_locks_db : List String → Database → Result (Unit {0})
  unfolding check_locks
  check_locks_db clients d = check_locks clients d.locks

  -- `byz`: a Byzantine node checks the locks and takes none.
  unfoldable pub check_and_get_locks : List String → Bool → Database → Result (Unit {0}) × Database
  unfolding check_locks_db get_locks_db
  check_and_get_locks clients byz d = elim (check_locks_db clients d) [
    | ok done ↦ (ok tt, if byz then d else get_locks_db clients d)
    | err text ↦ (err "already locked", d)
    | panic ↦ (panic, d)
  ]

  -- `CatchUpLockMap`: a fresh bucket with one lock for each key of the map.
  unfoldable pub catch_up_lock_map : List String → Database → Database
  unfolding put_locks
  catch_up_lock_map clients d = record d { locks = put_locks clients bolt.new_bucket }

  unfoldable pub get_all_locks : Database → List String
  get_all_locks d = map (λ e. e.0) (bolt.entries d.locks)

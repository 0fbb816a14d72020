-- ===== src/Tests/Locks.antt =====
-- Two rounds that share a client: the second is refused, and gets its locks once the first is over.
use mathlib.Core.List.{Permᴰ}
use pbft_2pc.Prelude.{String, string_eq, nat_eq, false, List, [], ◌∷◌, ok, err, ◌≡◌, refl}
use pbft_2pc.Instances.{list_bolt}
use pbft_2pc.Db.{Database, create_buckets}
use pbft_2pc.Db.Locks.{
  delete_all, release_locks_db, put_lock, put_locks, get_locks_db, check_locks, check_locks_db,
  check_and_get_locks,
}
use pbft_2pc.Db.Locks.Holders.{Lockers, LockStep, Reach, IsHeldOnce, holders_exclude}

abbrev first : List String
first = "7" ∷ "8" ∷ []

abbrev second : List String
second = "8" ∷ "9" ∷ []

abbrev start : Database
start = create_buckets

abbrev one_round : Database
one_round = get_locks_db first start

abbrev over : Database
over = release_locks_db first one_round

abbrev final : Lockers
final = (get_locks_db second over, second ∷ [])

taken : check_and_get_locks first false start ≡ (ok tt, one_round)
unfolding put_lock put_locks get_locks_db check_locks check_locks_db check_and_get_locks
    create_buckets
taken = refl

refused : check_and_get_locks second false one_round ≡ (err "already locked", one_round)
unfolding put_lock put_locks get_locks_db check_locks check_locks_db check_and_get_locks
    create_buckets
refused = refl

taken_later : check_and_get_locks second false over ≡ (ok tt, get_locks_db second over)
unfolding put_lock put_locks get_locks_db check_locks check_locks_db check_and_get_locks delete_all
    release_locks_db create_buckets
taken_later = refl

steps : Reach (start, []) final
steps = Reach.step (LockStep.take first taken) (
    Reach.step (LockStep.refuse second false refused) (
      Reach.step (LockStep.release first (Permᴰ.cons refl Permᴰ.nil))
        (Reach.step (LockStep.take second taken_later) Reach.stop)))

holders_exclude_example : IsHeldOnce "8" final
unfolding create_buckets
holders_exclude_example = holders_exclude "8" start final refl refl steps

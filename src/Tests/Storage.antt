-- ===== src/Tests/Storage.antt =====
-- The database: balances, locks, the write-ahead log and the keys of saved transactions.
use pbft_2pc.Prelude.{arith, string_eq, nat_eq, list_eq, add64, false, [], ◌∷◌, ok, ◌≡◌, refl}
use pbft_2pc.Instances.{list_bolt, decimal_codec, toy_crypto, sample, sample_log}
use pbft_2pc.Db.{Database, create_buckets}
use pbft_2pc.Db.Balances.{initiate_balances, put_initial, get_balance, update_balances}
use pbft_2pc.Db.Balances.Total.{total, transfer_conserves}
use pbft_2pc.Db.Locks.{check_and_get_locks, get_locks_db}
use pbft_2pc.Db.Locks.Exclusion.{Locks, check_and_get_locks-Locks}
use pbft_2pc.Db.Wal.{current_entry, append_bucket, append_to_wal_entry}

abbrev shard_one : Database
shard_one = initiate_balances "7" "8" create_buckets

abbrev shard_two : Database
shard_two = initiate_balances "1500" "1500" create_buckets

ten : get_balance "7" shard_one ≡ ok 10
unfolding get_balance initiate_balances put_initial create_buckets
ten = refl

ten_too : get_balance "1500" shard_two ≡ ok 10
unfolding get_balance initiate_balances put_initial create_buckets
ten_too = refl

transfer_conserves_example :
    add64
      (total ("7" ∷ []) (update_balances sample shard_one))
      (total ("1500" ∷ []) (update_balances sample shard_two))
    ≡ add64 (total ("7" ∷ []) shard_one) (total ("1500" ∷ []) shard_two)
transfer_conserves_example =
    transfer_conserves sample ("7" ∷ []) ("1500" ∷ []) shard_one shard_two (ground arith)
      ((10, ten), tt) ((10, ten_too), tt) refl

abbrev locked_one : Database
locked_one = get_locks_db ("7" ∷ []) shard_one

check_and_get_locks-Locks_example :
    Locks
      ("7" ∷ "1500" ∷ [])
      false
      locked_one
      (check_and_get_locks ("7" ∷ "1500" ∷ []) false locked_one)
check_and_get_locks-Locks_example = check_and_get_locks-Locks ("7" ∷ "1500" ∷ []) false locked_one

appended : (append_to_wal_entry 5 (sample_log ∷ []) shard_one).0 ≡ ok tt
unfolding append_to_wal_entry append_bucket current_entry initiate_balances put_initial
    create_buckets
appended = refl

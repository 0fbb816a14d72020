-- ===== src/Tests/Failures.antt =====
-- A round that is not prepared, two quorums with a common honest member, and two shards that run one
-- cross-shard transaction.
use pbft_2pc.Prelude.{
  ◌+◌, arith, String, string_eq, nat_eq, list_eq, Int64, none, some, List, [], ◌∷◌, Table, ◌==◌,
  if◌then◌else◌, ok, err, ◌≡◌, ◌⊎◌, refl, inr, length, add64,
}
use mathlib.Core.List.{Permᴰ}
use pbft_2pc.Messages.{Transaction, CommitRequest}
use pbft_2pc.Instances.{list_bolt, decimal_codec, toy_crypto, sample}
use pbft_2pc.Cryptox.{sign_message, verify_signature, md5_hash}
use pbft_2pc.Db.{create_buckets}
use pbft_2pc.Db.Balances.{initiate_balances, put_initial, get_balance}
use pbft_2pc.Db.Balances.Total.{total}
use pbft_2pc.Db.Locks.{
  delete_all, release_locks_db, check_locks, check_locks_db, check_and_get_locks, get_locks_db,
  put_locks, put_lock,
}
use pbft_2pc.Timer.{new_timer}
use pbft_2pc.Collect.{collect, collect_rest, main_timer}
use pbft_2pc.Node.{Node, TransactionLog, DbUnit, new_node, emit, emit_all, leaders}
use pbft_2pc.Node.Log.{
  write_log, save_pre_prepare, log_client_request, get_public_key, advance, update_log,
}
use pbft_2pc.Node.Locking.{acquire_locks, release_locks}
use pbft_2pc.Node.Backup.{needs_locks}
use pbft_2pc.Node.Certs.{
  is_signed_by, is_valid_prepare, is_valid_commit, get_valid_prepare_certs, get_valid_commit_certs,
  validate_prepares, validate_commits,
}
use pbft_2pc.Node.Certs.Agreement.{validate_commits_agree}
use pbft_2pc.Node.Primary.{
  Schedule, check_balance, lock_clients, make_pre_prepare, peers, log_and_send, start_round,
  finish_prepares, prepare_round, run_pbft,
}
use pbft_2pc.Node.Primary.Failure.{AreFree, run_pbft_failed}
use pbft_2pc.Node.Executor.{executor_rounds}
use pbft_2pc.Node.Executor.Conservation.{executors_conserve}
use pbft_2pc.Tests.Data.{start_node, commit_by, request, node_after}

abbrev leader : Node
leader = start_node "S1"

-- No prepare comes.
abbrev silent : Schedule
silent = record {
  sleeps = [];
  during_prepares = λ n. n;
  prepare_arrivals = main_timer ∷ [];
  during_commits = λ n. n;
  commit_arrivals = [];
}

abbrev leader_after : Node
leader_after = node_after (run_pbft silent request 0 "" leader) leader

round_fails :
    run_pbft silent request 0 "" leader ≡ some (err "pbft run failed not prepared", leader_after)
unfolding sign_message verify_signature md5_hash create_buckets initiate_balances put_initial
    get_balance delete_all release_locks_db check_locks check_locks_db check_and_get_locks
    get_locks_db put_locks put_lock new_timer collect collect_rest new_node emit emit_all leaders
    write_log save_pre_prepare log_client_request get_public_key advance update_log acquire_locks
    release_locks needs_locks is_signed_by is_valid_prepare get_valid_prepare_certs
    validate_prepares check_balance lock_clients make_pre_prepare peers log_and_send start_round
    finish_prepares prepare_round run_pbft
round_fails = refl

run_pbft_failed_example :
    (leader_after ≡ leader) ⊎ AreFree request.client_request.transaction leader_after
run_pbft_failed_example =
    run_pbft_failed silent request 0 "" leader leader_after "pbft run failed not prepared"
      round_fails

abbrev entry : TransactionLog
entry = record {
  transaction = sample;
  view = 1;
  state = 2;
  digest = "5";
  timestamp = 50;
  client_seq = 5;
}

abbrev prepared_node : String → Node
prepared_node me = record (start_node me) {
  transaction_log = λ i. if i == 1 then some entry else none;
}

abbrev members : List String
members = "S1" ∷ "S2" ∷ "S3" ∷ "S4" ∷ []

abbrev commits : List CommitRequest
commits = commit_by 1 "S1" ∷ commit_by 1 "S2" ∷ commit_by 1 "S3" ∷ []

abbrev commits' : List CommitRequest
commits' = commit_by 1 "S2" ∷ commit_by 1 "S3" ∷ commit_by 1 "S4" ∷ []

-- S3 is Byzantine, and the others voted for the digest "5".
validate_commits_agree_example :
    (e : TransactionLog) × (e' : TransactionLog) × ((prepared_node "S1").transaction_log 1 ≡ some e)
    × ((prepared_node "S2").transaction_log 1 ≡ some e')
    × (e.digest ≡ e'.digest)
unfolding new_node get_valid_commit_certs is_valid_commit is_signed_by get_public_key
    verify_signature validate_commits
validate_commits_agree_example =
    validate_commits_agree members (λ m. m == "S3") (λ m. "5") 1 commits commits' "" "" 5 5 sample
      sample (prepared_node "S1") (prepared_node "S2") (ground arith) (ground arith)
      (
        (refl, (refl, (refl, tt))),
        (refl, (refl, (refl, tt))),
        (inr refl, (inr refl, (inr refl, tt))),
      )
      (
        (refl, (refl, (refl, tt))),
        (refl, (refl, (refl, tt))),
        (inr refl, (inr refl, (inr refl, tt))),
      )
      refl refl

-- The transaction from client 7 of the first shard to client 1500 of the second, prepared and
-- committed in both, and one from 7 to 8 in between in the first.
abbrev unit_of : Int64 → String → Transaction → DbUnit
unit_of i status t = record {
  seq = i;
  transaction = some t;
  status = status;
  timestamp = 50;
  client_seq = t.client_seq;
}

abbrev small : Transaction
small = record sample { to = "8"; amount = 1; client_seq = 6 }

abbrev units : List (DbUnit × Transaction)
units =
    (unit_of 1 "P" sample, sample)
    ∷ (unit_of 2 "" small, small)
    ∷ (unit_of 3 "C" sample, sample)
    ∷ []

abbrev units' : List (DbUnit × Transaction)
units' = (unit_of 1 "P" sample, sample) ∷ (unit_of 2 "C" sample, sample) ∷ []

abbrev stored : List (DbUnit × Transaction) → Table Int64 DbUnit
stored [] i = none
stored ((u, t) ∷ us) i = if i == u.seq then some u else stored us i

abbrev first_shard : Node
first_shard = record leader { datastore = stored units }

abbrev second_shard : Node
second_shard =
    record (new_node "C2" "S5" (λ c. [])
      (record { public_key = record { modulus = 5; exponent = 3 }; private_exponent = 7 })
      (λ i. none) "1500" "1501") { datastore = stored units' }

executors_conserve_example :
    (m : Node) × (m' : Node) × (executor_rounds (length units + 2) first_shard ≡ ok m)
    × (executor_rounds (length units' + 0) second_shard ≡ ok m')
    × (add64 (total ("7" ∷ "8" ∷ []) m.db) (total ("1500" ∷ "1501" ∷ []) m'.db)
        ≡ add64
            (total ("7" ∷ "8" ∷ []) first_shard.db)
            (total ("1500" ∷ "1501" ∷ []) second_shard.db))
unfolding new_node create_buckets initiate_balances put_initial get_balance
executors_conserve_example =
    executors_conserve ("7" ∷ "8" ∷ []) ("1500" ∷ "1501" ∷ []) (small ∷ []) [] (sample ∷ []) units
      units' 2 0 first_shard second_shard
      (
        ground arith,
        (refl, refl, (refl, refl, (refl, refl, tt))),
        refl,
        (refl, (refl, (refl, tt))),
        (ground arith, (ground arith, (ground arith, tt))),
      )
      (
        ground arith,
        (refl, refl, (refl, refl, tt)),
        refl,
        (refl, (refl, tt)),
        (ground arith, (ground arith, tt)),
      )
      ((_, refl), ((_, refl), tt)) ((_, refl), ((_, refl), tt)) (Permᴰ.swap refl refl)
      (Permᴰ.cons refl Permᴰ.nil) (refl, tt) tt (refl, tt)

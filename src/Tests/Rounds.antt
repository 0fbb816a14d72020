-- ===== src/Tests/Rounds.antt =====
-- A leader that runs PBFT rounds, alone and as the coordinator of a cross-shard transaction.
use pbft_2pc.Prelude.{
  string_eq, nat_eq, list_eq, Int64, true, false, some, [], ◌∷◌, ok, err, ◌≡◌, ◌⊎◌, ◌++◌, refl,
}
use pbft_2pc.Instances.{list_bolt, decimal_codec, toy_crypto}
use pbft_2pc.Cryptox.{sign_message, verify_signature, md5_hash}
use pbft_2pc.Db.{create_buckets}
use pbft_2pc.Db.Balances.{initiate_balances, put_initial, get_balance}
use pbft_2pc.Db.Locks.{
  delete_all, release_locks_db, check_locks, check_locks_db, check_and_get_locks, get_locks_db,
  put_locks, put_lock,
}
use pbft_2pc.Db.Wal.{current_entry, append_bucket, append_to_wal_entry}
use pbft_2pc.Timer.{new_timer}
use pbft_2pc.Collect.{collect, collect_rest, cert, majority_timer}
use pbft_2pc.Messages.{PrePrepareRequest}
use pbft_2pc.Node.{Node, new_node, emit, emit_all, leaders}
use pbft_2pc.Node.Log.{
  write_log, save_pre_prepare, log_client_request, get_public_key, advance, update_log,
}
use pbft_2pc.Node.Locking.{acquire_locks, release_locks}
use pbft_2pc.Node.Backup.{needs_locks}
use pbft_2pc.Node.Certs.{
  is_signed_by, is_valid_prepare, is_valid_commit, get_valid_prepare_certs, get_valid_commit_certs,
  validate_prepares, validate_commits, commit_entry, save_transaction_to_datastore, db_unit,
}
use pbft_2pc.Node.Primary.{
  Schedule, check_balance, lock_clients, make_pre_prepare, peers, log_and_send, start_round,
  finish_prepares, finish_commits, commit_round, prepare_round, run_pbft,
}
use pbft_2pc.Node.Primary.Success.{HasCommitted, IsSound, run_pbft-HasCommitted}
use pbft_2pc.Node.Primary.Logged.{IsFor}
use pbft_2pc.Node.Primary.Endings.{endings}
use pbft_2pc.Node.TwoPhase.{
  committed, Exchange, resend, pc_request, finish_commit, decide, participant, run_cross_shard,
}
use pbft_2pc.Node.TwoPhase.Told.{success, Stops, Succeeds, client_told}
use pbft_2pc.Tests.Data.{start_node, prepare_by, commit_by, request, node_after}

abbrev pub leader : Node
leader = start_node "S1"

-- Two prepares and three commits for a sequence number, with nothing else going on.
abbrev pub quiet : Int64 → Schedule
quiet seq = record {
  sleeps = [];
  during_prepares = λ n. n;
  prepare_arrivals = cert (prepare_by seq "S2") ∷ cert (prepare_by seq "S3") ∷ majority_timer ∷ [];
  during_commits = λ n. record n { byzantine = false };
  commit_arrivals =
      cert (commit_by seq "S1")
      ∷ cert (commit_by seq "S2")
      ∷ cert (commit_by seq "S3")
      ∷ majority_timer
      ∷ [];
}

abbrev sent : PrePrepareRequest
sent = record {
  pre_prepare = record { view = 1; sequence = 1; digest = "5"; status = "" };
  signature = 1 ∷ 2 ∷ 1 ∷ 1 ∷ [];
  client_req = some request;
}

abbrev leader_after : Node
leader_after = node_after (run_pbft (quiet 1) request 0 "" leader) leader

round_ends : run_pbft (quiet 1) request 0 "" leader ≡ some (ok sent, leader_after)
unfolding sign_message verify_signature md5_hash create_buckets initiate_balances put_initial
    get_balance delete_all release_locks_db check_locks check_locks_db check_and_get_locks
    get_locks_db put_locks put_lock current_entry append_bucket append_to_wal_entry new_timer
    collect collect_rest new_node emit emit_all leaders write_log save_pre_prepare
    log_client_request get_public_key advance update_log acquire_locks release_locks needs_locks
    is_signed_by is_valid_prepare is_valid_commit get_valid_prepare_certs get_valid_commit_certs
    validate_prepares validate_commits commit_entry save_transaction_to_datastore db_unit
    check_balance lock_clients make_pre_prepare peers log_and_send start_round finish_prepares
    finish_commits commit_round prepare_round run_pbft
round_ends = refl

-- Nothing goes on during the waits, and the leader is honest.
pub quiet-IsSound : (seq : Int64) → IsSound (quiet seq)
quiet-IsSound seq = (λ m. refl, λ m i e h. (e, h, refl), λ m i e h. (e, h, refl))

run_pbft-HasCommitted_example : HasCommitted sent "" 5 leader_after × IsFor request 0 sent
run_pbft-HasCommitted_example =
    run_pbft-HasCommitted (quiet 1) request 0 "" leader leader_after sent (quiet-IsSound 1)
      round_ends

-- The participant agrees, and answers the second message to commit.
abbrev exchange : Exchange
exchange = record {
  first_round = quiet 1;
  during_prepare = λ n. n;
  prepare_answer = λ r. ok (record { success = true; cluster = "C2"; node_id = "S5" });
  second_round = quiet 2;
  commit_answers = err "lost" ∷ ok (record { success = true; cluster = "C2"; node_id = "S5" }) ∷ [];
}

abbrev coordinator_after : Node
coordinator_after = node_after (run_cross_shard exchange request 0 leader) leader

exchange_ends : run_cross_shard exchange request 0 leader ≡ some (committed, coordinator_after)
unfolding sign_message verify_signature md5_hash create_buckets initiate_balances put_initial
    get_balance delete_all release_locks_db check_locks check_locks_db check_and_get_locks
    get_locks_db put_locks put_lock current_entry append_bucket append_to_wal_entry new_timer
    collect collect_rest new_node emit emit_all leaders write_log save_pre_prepare
    log_client_request get_public_key advance update_log acquire_locks release_locks needs_locks
    is_signed_by is_valid_prepare is_valid_commit get_valid_prepare_certs get_valid_commit_certs
    validate_prepares validate_commits commit_entry save_transaction_to_datastore db_unit
    check_balance lock_clients make_pre_prepare peers log_and_send start_round finish_prepares
    finish_commits commit_round prepare_round run_pbft resend pc_request finish_commit decide
    participant run_cross_shard
exchange_ends = refl

client_told_example :
    ((endings 5 coordinator_after ≡ endings 5 leader) × Stops exchange request 0 leader)
    ⊎ ((endings 5 coordinator_after ≡ endings 5 leader ++ success request)
        × Succeeds exchange request 0 leader coordinator_after)
client_told_example =
    client_told exchange request 0 leader coordinator_after committed (quiet-IsSound 2)
      (λ m. refl, λ m. refl, tt) (λ m. refl, λ m. refl, tt) (λ m. refl) exchange_ends

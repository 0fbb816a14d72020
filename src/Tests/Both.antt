-- ===== src/Tests/Both.antt =====
-- S1 coordinates a transaction in which S5 participates, and both run their rounds.
use pbft_2pc.Prelude.{string_eq, nat_eq, list_eq, true, some, [], ◌∷◌, ok, err, ◌≡◌, refl}
use pbft_2pc.Instances.{list_bolt, decimal_codec, toy_crypto}
use pbft_2pc.Cryptox.{sign_message, verify_signature, md5_hash}
use pbft_2pc.Db.{create_buckets}
use pbft_2pc.Db.Balances.{initiate_balances, put_initial, get_balance}
use pbft_2pc.Db.Locks.{
  delete_all, release_locks_db, check_locks, check_locks_db, check_and_get_locks, get_locks_db,
  put_locks, put_lock,
}
use pbft_2pc.Db.Wal.{current_entry, append_bucket, append_to_wal_entry}
use pbft_2pc.Timer.{new_timer}
use pbft_2pc.Collect.{collect, collect_rest}
use pbft_2pc.Messages.{PrePrepareRequest, PcPrepareReq}
use pbft_2pc.Node.{Node, new_node, emit, emit_all, leaders}
use pbft_2pc.Node.Log.{
  write_log, save_pre_prepare, log_client_request, get_public_key, advance, update_log,
}
use pbft_2pc.Node.Locking.{acquire_locks, release_locks}
use pbft_2pc.Node.Backup.{needs_locks}
use pbft_2pc.Node.Certs.{
  is_signed_by, is_valid_prepare, is_valid_commit, get_valid_prepare_certs, get_valid_commit_certs,
  validate_prepares, validate_commits, commit_entry, save_transaction_to_datastore, db_unit,
}
use pbft_2pc.Node.Primary.{
  check_balance, lock_clients, make_pre_prepare, peers, log_and_send, start_round, finish_prepares,
  finish_commits, commit_round, prepare_round, run_pbft,
}
use pbft_2pc.Node.TwoPhase.{
  committed, Exchange, resend, pc_request, finish_commit, decide, participant, run_cross_shard,
  pc_prepare, pc_commit, validate_pcp_commits, is_pc_commit, pc_reply,
}
use pbft_2pc.Tests.Data.{keys, key_of, peers_of, request, node_after}
use pbft_2pc.Node.TwoPhase.Both.{none_left, call_lost, call_answered, CommitAnswers}
use pbft_2pc.Node.Primary.Success.{HasCommitted}
use pbft_2pc.Node.Primary.Endings.{endings}
use pbft_2pc.Node.TwoPhase.Silence.{pc_prepare_unguarded}
use pbft_2pc.Tests.Rounds.{leader, quiet, quiet-IsSound}

-- The leader of the second cluster, with client 1500.
abbrev other : Node
other =
    new_node "C2" "S5" (peers_of "S5") (record { public_key = key_of "S5"; private_exponent = 7 })
      keys "1500" "1501"

-- It agrees; the first message to commit gets lost and the second is answered.
abbrev exchange : Exchange
exchange = record {
  first_round = quiet 1;
  during_prepare = λ n. n;
  prepare_answer = λ r. ok (record { success = true; cluster = "C2"; node_id = "S5" });
  second_round = quiet 2;
  commit_answers = err "lost" ∷ ok (record { success = true; cluster = "C2"; node_id = "S5" }) ∷ [];
}

abbrev after_first : Node
after_first = node_after (run_pbft exchange.first_round request 0 "P" leader) leader

abbrev proposed : PrePrepareRequest
proposed = record {
  pre_prepare = record { view = 1; sequence = 1; digest = "5"; status = "P" };
  signature = 1 ∷ 2 ∷ 1 ∷ 1 ∷ [];
  client_req = some request;
}

abbrev coordinator_after : Node
coordinator_after = node_after (run_cross_shard exchange request 0 leader) leader

abbrev asked : PcPrepareReq
asked = pc_request request proposed after_first

abbrev prepared : Node
prepared = node_after (pc_prepare (quiet 1) asked other) other

abbrev committed_too : Node
committed_too = node_after (pc_commit (quiet 2) asked prepared) prepared

runs :
    (run_pbft exchange.first_round request 0 "P" leader ≡ some (ok proposed, after_first))
    × (run_cross_shard exchange request 0 leader ≡ some (committed, coordinator_after))
    × (pc_prepare (quiet 1) asked other
        ≡ some (ok (record { success = true; cluster = "C2"; node_id = "S5" }), prepared))
    × (pc_commit (quiet 2) asked prepared
        ≡ some (ok (record { success = true; cluster = "C2"; node_id = "S5" }), committed_too))
unfolding sign_message verify_signature md5_hash create_buckets initiate_balances put_initial
    get_balance delete_all release_locks_db check_locks check_locks_db check_and_get_locks
    get_locks_db put_locks put_lock current_entry append_bucket append_to_wal_entry new_timer
    collect collect_rest new_node emit emit_all leaders write_log save_pre_prepare
    log_client_request get_public_key advance update_log acquire_locks release_locks needs_locks
    is_signed_by is_valid_prepare is_valid_commit get_valid_prepare_certs get_valid_commit_certs
    validate_prepares validate_commits commit_entry save_transaction_to_datastore db_unit
    check_balance lock_clients make_pre_prepare peers log_and_send start_round finish_prepares
    finish_commits commit_round prepare_round run_pbft resend pc_request finish_commit decide
    participant run_cross_shard pc_prepare pc_commit validate_pcp_commits is_pc_commit pc_reply
runs = (refl, refl, refl, refl)

-- The first message to commit does not reach the participant.
abbrev told_by : CommitAnswers asked prepared exchange.commit_answers
told_by = call_lost prepared "lost" _ (
    call_answered prepared committed_too (quiet 2) _ [] (quiet-IsSound 2) runs.3
      (none_left committed_too))

pc_prepare_unguarded_example :
    (ppr : PrePrepareRequest) × (run_pbft (quiet 1) request 0 "P" other ≡ some (ok ppr, prepared))
    × (ppr.client_req ≡ some request)
    × HasCommitted ppr "P" request.client_request.transaction.client_seq prepared
    × (endings 5 prepared ≡ endings 5 other)
unfolding pc_request
pc_prepare_unguarded_example =
    pc_prepare_unguarded (quiet 1) asked (record { success = true; cluster = "C2"; node_id = "S5" })
      other prepared (quiet-IsSound 1) (λ m. refl, λ m. refl, tt) runs.2

-- ===== src/Tests/Backups.antt =====
-- A backup that gets two pre-prepares for the same number.
use pbft_2pc.Prelude.{
  sym, eq_iff, String, string_eq, nat_eq, list_eq, true, false, some, [], ok, err, ◌≡◌, ◌≢◌, refl,
}
use pbft_2pc.Instances.{list_bolt, decimal_codec, toy_crypto}
use pbft_2pc.Cryptox.{verify_signature, md5_hash}
use pbft_2pc.Db.{create_buckets}
use pbft_2pc.Db.Balances.{initiate_balances, put_initial}
use pbft_2pc.Db.Locks.{
  check_locks, check_locks_db, check_and_get_locks, get_locks_db, put_locks, put_lock,
}
use pbft_2pc.Timer.{new_timer}
use pbft_2pc.Node.{Node, new_node, emit, leaders}
use pbft_2pc.Node.Log.{
  write_log, save_pre_prepare, check_pre_prepare, log_client_request, get_view_leader,
  leader_number,
}
use pbft_2pc.Node.Locking.{acquire_locks}
use pbft_2pc.Node.Backup.{
  conflicts, check_request, log_if_new, needs_locks, record_request, accept_request, pre_prepare,
}
use pbft_2pc.Node.Backup.Acceptance.{Passed, pre_prepare-accepts, pre_prepare_once}
use pbft_2pc.Messages.{SignedClientRequest}
use pbft_2pc.Tests.Data.{start_node, proposal, node_after}

abbrev backup : Node
backup = start_node "S2"

abbrev accepted : Node
accepted = node_after (pre_prepare [] (proposal "5") backup) backup

backup_accepts : pre_prepare [] (proposal "5") backup ≡ some (ok tt, accepted)
unfolding pre_prepare check_request conflicts accept_request log_if_new needs_locks record_request
    acquire_locks write_log save_pre_prepare check_pre_prepare log_client_request get_view_leader
    leader_number emit md5_hash verify_signature check_and_get_locks check_locks_db check_locks
    get_locks_db put_locks put_lock new_node leaders new_timer create_buckets initiate_balances
    put_initial
backup_accepts = refl

pre_prepare-accepts_example :
    (c : SignedClientRequest) × Passed (proposal "5") c backup
    × (accepted.transaction_log 1
        ≡ some (record {
          transaction = c.client_request.transaction;
          view = accepted.view;
          state = 1;
          digest = "5";
          timestamp = c.client_request.timestamp;
          client_seq = c.client_request.transaction.client_seq;
        }))
unfolding new_node
pre_prepare-accepts_example =
    pre_prepare-accepts [] (proposal "5") backup accepted refl refl backup_accepts

accepted_state : (accepted.view ≡ 1) × (accepted.live ≡ true) × (accepted.view_changing ≡ false)
unfolding pre_prepare check_request conflicts accept_request log_if_new needs_locks record_request
    acquire_locks write_log save_pre_prepare check_pre_prepare log_client_request get_view_leader
    leader_number emit md5_hash verify_signature check_and_get_locks check_locks_db check_locks
    get_locks_db put_locks put_lock new_node leaders new_timer create_buckets initiate_balances
    put_initial
accepted_state = (refl, refl, refl)

other_digest : ◌≢◌ {A = String} "6" "5"
other_digest e = let b : false ≡ true = (eq_iff "6" "5").1 e in absurd (cc)

pre_prepare_once_example :
    (text : String) × (pre_prepare [] (proposal "6") accepted ≡ some (err text, accepted))
unfolding new_node
pre_prepare_once_example =
    pre_prepare_once [] [] (proposal "5") (proposal "6") backup accepted refl refl backup_accepts
      refl (sym (accepted_state.0)) other_digest (accepted_state.1) (accepted_state.2)

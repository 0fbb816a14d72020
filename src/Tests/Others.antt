-- ===== src/Tests/Others.antt =====
-- Signatures, logs, locks that are waited for, quorums, collecting, view changes, checkpoints, the
-- participant's test and the gateway.
use pbft_2pc.Prelude.{
  ◌%◌, ◌≤◌, ℕ, ◌↔◌, ◌≢◌, ◌⊎◌, arith, leb, length, String, string_eq, nat_eq, list_eq, Int64, Bool,
  true, false, none, some, List, [], ◌∷◌, ◌++◌, ◌==◌, if◌then◌else◌, ok, err, panic, ◌≡◌, refl,
}
use pbft_2pc.Messages.{Message, CommitRequest, PcPrepareReq}
use pbft_2pc.Deps.{PublicKey}
use pbft_2pc.Instances.{list_bolt, decimal_codec, toy_crypto, sample}
use pbft_2pc.Cryptox.{verify_signature, md5_hash}
use pbft_2pc.Collect.{Arrival, cert, main_timer, majority_timer, collect, collect_rest}
use pbft_2pc.Collect.Certificates.{Collected, collect-first_part, collect_ends}
use pbft_2pc.Db.{create_buckets}
use pbft_2pc.Db.Balances.{initiate_balances, put_initial}
use pbft_2pc.Db.Locks.{
  delete_all, check_locks, check_locks_db, check_and_get_locks, get_locks_db, put_locks, put_lock,
  release_locks_db,
}
use pbft_2pc.Node.{Node, TransactionLog, new_node}
use pbft_2pc.Node.Log.{get_public_key, advance}
use pbft_2pc.Node.Locking.{acquire_locks, release_locks}
use pbft_2pc.Node.Locking.Waiting.{
  Granted, are_taken, after_sleeps, acquire_locks-Granted, acquire_locks_ends,
}
use pbft_2pc.Node.Certs.{validate_commits}
use pbft_2pc.Node.Certs.Quorum.{votes, validate_commits_iff, validate_commits_effect}
use pbft_2pc.Node.ViewChange.{send_view_change}
use pbft_2pc.Node.ViewChange.Rounds.{send_view_change_once}
use pbft_2pc.Node.TwoPhase.{validate_pcp_commits}
use pbft_2pc.Node.TwoPhase.Votes.{pc_votes, validate_pcp_commits_iff}
use pbft_2pc.Gateway.Routing.{cluster_number}
use pbft_2pc.Gateway.Routing.Shards.{shard, cluster_number_iff}
use pbft_2pc.Gateway.Replies.{
  ReplyResult, Gateway, count_result, read_reply, read_replies, start_attempt, decision,
}
use pbft_2pc.Gateway.Replies.Counting.{with_result, decision-read_replies}
use pbft_2pc.Tests.Data.{keys, start_node, commit_by, request}

abbrev entry : TransactionLog
entry = record {
  transaction = sample;
  view = 1;
  state = 2;
  digest = "5";
  timestamp = 50;
  client_seq = 5;
}

abbrev prepared_node : Node
prepared_node = record (start_node "S1") {
  transaction_log = λ i. if i == 1 then some entry else none;
}

abbrev three_commits : List CommitRequest
three_commits = commit_by 1 "S1" ∷ commit_by 1 "S2" ∷ commit_by 1 "S3" ∷ []

validate_commits_iff_example :
    (validate_commits 1 three_commits "" 5 sample prepared_node).0
    ≡ leb 3 (votes 1 three_commits prepared_node)
validate_commits_iff_example = validate_commits_iff 1 three_commits "" 5 sample prepared_node

abbrev result_of_commits : Bool × Node
result_of_commits = validate_commits 1 three_commits "" 5 sample prepared_node

validate_commits_effect_example :
    ((result_of_commits.0 ≡ false) × (result_of_commits.1 ≡ prepared_node))
    ⊎ ((e : TransactionLog) × (result_of_commits.0 ≡ true)
        × (prepared_node.transaction_log 1 ≡ some e)
        × (result_of_commits.1.transaction_log 1 ≡ some (advance "committed" e))
        × (result_of_commits.1.datastore 1
            ≡ some (record {
              seq = 1;
              transaction = some e.transaction;
              status = "";
              timestamp = e.timestamp;
              client_seq = 5;
            }))
        × ((j : Int64)
            → (◌≡◌ {A = ℕ} 1 j) ⊎ (result_of_commits.1.datastore j ≡ prepared_node.datastore j))
        × (3 ≤ length (result_of_commits.1.commit_certs 1)))
unfolding new_node
validate_commits_effect_example =
    validate_commits_effect 1 three_commits "" 5 sample prepared_node refl

-- The first try fails, and during the sleep the locks are released.
abbrev locked_node : Node
locked_node = let n = start_node "S1" in record n { db = get_locks_db ("7" ∷ []) n.db }

abbrev unlock : Node → Node
unlock n = release_locks sample n

abbrev unlocked : Node
unlocked = let n = unlock locked_node in record n { db = get_locks_db ("7" ∷ "1500" ∷ []) n.db }

acquired : acquire_locks (unlock ∷ []) ("7" ∷ "1500" ∷ []) (λ _. false) locked_node ≡ some unlocked
unfolding acquire_locks check_and_get_locks check_locks_db check_locks get_locks_db put_locks
    put_lock release_locks release_locks_db delete_all new_node initiate_balances put_initial
    create_buckets
acquired = refl

acquire_locks-Granted_example : Granted (unlock ∷ []) ("7" ∷ "1500" ∷ []) locked_node unlocked
acquire_locks-Granted_example =
    acquire_locks-Granted (unlock ∷ []) ("7" ∷ "1500" ∷ []) locked_node unlocked acquired

free_later : are_taken ("7" ∷ "1500" ∷ []) (after_sleeps (unlock ∷ []) locked_node) ≡ false
unfolding get_locks_db put_locks put_lock release_locks release_locks_db delete_all new_node
    initiate_balances put_initial create_buckets
free_later = refl

acquire_locks_ends_example :
    (n' : Node) × (acquire_locks (unlock ∷ []) ("7" ∷ "1500" ∷ []) (λ _. false) locked_node
      ≡ some n')
    × Granted (unlock ∷ []) ("7" ∷ "1500" ∷ []) locked_node n'
acquire_locks_ends_example =
    acquire_locks_ends (unlock ∷ []) ("7" ∷ "1500" ∷ []) locked_node free_later

abbrev events : List (Arrival ℕ)
events = cert 1 ∷ cert 2 ∷ main_timer ∷ cert 3 ∷ majority_timer ∷ []

collect-first_part_example : Collected 2 [] events (1 ∷ 2 ∷ 3 ∷ [])
unfolding collect collect_rest
collect-first_part_example = collect-first_part 1 events (1 ∷ 2 ∷ 3 ∷ []) refl

collect_ends_example :
    (r : List ℕ) × (collect 2 [] ((cert 1 ∷ []) ++ main_timer ∷ ([] ++ majority_timer ∷ []))
      ≡ some r)
collect_ends_example = collect_ends 2 [] (cert 1 ∷ []) [] []

send_view_change_once_example :
    send_view_change 2 (send_view_change 3 (start_node "S2")) ≡ send_view_change 3 (start_node "S2")
send_view_change_once_example = send_view_change_once 3 2 (start_node "S2") refl

abbrev prepare_request : PcPrepareReq
prepare_request = record { signed_client_req = request; commits = three_commits; node_id = "S1" }

validate_pcp_commits_iff_example :
    (validate_pcp_commits prepare_request (start_node "S5") ≡ ok tt) ↔ (
      (key : PublicKey) × (digest : String) × (get_public_key "client" (start_node "S5") ≡ ok key)
      × (verify_signature key (Message.client_request request.client_request) request.signature
          ≡ ok tt)
      × (md5_hash (some request) ≡ ok digest)
      × (leb 3 (pc_votes digest (start_node "S5") three_commits) ≡ true))
validate_pcp_commits_iff_example = validate_pcp_commits_iff prepare_request (start_node "S5")

cluster_number_iff_example : (cluster_number 1000 ≡ shard 1000) ↔ (1000 % 1000 ≢ 0)
cluster_number_iff_example = cluster_number_iff 1000 (ground arith) (ground arith)

abbrev reply_from : String → ReplyResult
reply_from server = record {
  timestamp = 50;
  result = true;
  server = server;
  view = 1;
  client_seq = 5;
}

abbrev gateway : Gateway
gateway = record { public_key_map = keys; reply_map = λ _. []; res_count_map = λ _. none }

abbrev replies : List ReplyResult
replies = reply_from "S1" ∷ reply_from "S2" ∷ []

abbrev gateway_after : Gateway
gateway_after = elim (read_replies replies (start_attempt 5 50 gateway)) [
  | ok g ↦ g
  | err text ↦ gateway
  | panic ↦ gateway
]

all_read : read_replies replies (start_attempt 5 50 gateway) ≡ ok gateway_after
unfolding read_replies read_reply count_result start_attempt
all_read = refl

decision-read_replies_example : decision 50 gateway_after ≡ (
    if leb 2 (with_result 50 true replies)
    then some true
    else if leb 2 (with_result 50 false replies)
    then some false
    else none)
decision-read_replies_example =
    decision-read_replies 5 50 replies gateway gateway_after (ground arith) all_read

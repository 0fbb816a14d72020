-- ===== src/Node/Log.antt =====
-- The log of a node: node/node.go's writeLog, savePrePrepare, checkPrePrepare and updateLog, and
-- what node/operations.go and node/utils.go read and write beside it.
pub mod Order
pub mod Leaders
use pbft_2pc.Prelude.{
  ℕ, zero, suc, String, string_eq, nat_eq, Int64, add64, sub64, mul64, rem64, max64, lt64, bias,
  ◌+◌, ◌-◌, Bool, true, false, Option, none, some, List, [], ◌∷◌, Table, assign, ◌==◌,
  if◌then◌else◌, ◌&&◌, Result, or_fail,
}
use Prim.Native.String.{◌++◌ as string_append}
use pbft_2pc.Messages.{Transaction, SignedClientRequest, PrePrepareRequest}
use pbft_2pc.Config.{states}
use pbft_2pc.Deps.{Bolt, Codec, PublicKey}
use pbft_2pc.Node.{Node, TransactionLog, RequestData}

-- `s[1:]` on a text whose first character is ASCII.
abbrev pub drop_first : String → String
drop_first String.[] = ""
drop_first (String.◌∷◌ c s) = s

-- The number of the leader of a view among the servers "S1", "S2", …, four to a cluster.
unfoldable pub leader_number : Int64 → Int64 → Int64
leader_number cluster view = add64 (mul64 (sub64 cluster 1) 4) (add64 (rem64 (sub64 view 1) 4) 1)

-- `for i := 1; i <= seq; i++ { delete(m, i) }`, with the number of rounds left
unfoldable pub delete_from {ℓ} : {V : Type ℓ} → ℕ → Int64 → V → (Int64 → V) → Int64 → V
delete_from zero i z m = m
delete_from (suc k) i z m = delete_from k (add64 i 1) z (assign i z m)

-- The entry after `updateLog`: the state only moves forward.
unfoldable pub advance : String → TransactionLog → TransactionLog
advance status entry =
    if lt64 entry.state (states status) then record entry { state = states status } else entry

module _ ⦃bolt : Bolt⦄ where
  unfoldable pub write_log : Int64 → Transaction → Int64 → String → Int64 → Node → Node
  write_log seq transaction view digest timestamp n = record n {
    max_seq = max64 n.max_seq seq;
    transaction_log =
        assign seq
          (some (record {
            transaction = transaction;
            view = view;
            state = states "pre-prepared";
            digest = digest;
            timestamp = timestamp;
            client_seq = transaction.client_seq;
          }))
          n.transaction_log;
  }

  unfoldable pub save_pre_prepare : Int64 → PrePrepareRequest → Node → Node
  save_pre_prepare seq req n = record n { pre_prepares = assign seq (some req) n.pre_prepares }

  unfoldable pub check_pre_prepare : Int64 → Node → Bool
  check_pre_prepare seq n = elim (n.pre_prepares seq) [ none ↦ false | some req ↦ true ]

  unfoldable pub update_log : Int64 → String → Node → Node
  update_log seq status n = elim (n.transaction_log seq) [
    | none ↦ n
    | some entry ↦ record n {
      transaction_log = assign seq (some (advance status entry)) n.transaction_log;
    }
  ]

  -- `node.TransactionLog[seq].Digest`, "" where there is no entry.
  abbrev pub log_digest : Int64 → Node → String
  log_digest seq n = elim (n.transaction_log seq) [ none ↦ "" | some entry ↦ entry.digest ]

  unfoldable pub get_public_key : String → Node → Result PublicKey
  get_public_key node_id n = or_fail (n.public_key_map node_id) "public key not found"

  unfoldable pub log_client_request : SignedClientRequest → Int64 → Node → Node
  log_client_request req seq n = record n {
    request_log =
        assign req.client_request.timestamp
          (some (record { seq = seq; executed = false; result = false })) n.request_log;
  }

  unfoldable pub get_view_leader : ⦃codec : Codec⦄ → Node → String
  get_view_leader ⦃codec⦄ n =
      string_append "S"
        (codec.format_int (leader_number (codec.parse_int (drop_first n.cluster_id)) n.view))

  unfoldable pub collect_garbage : Int64 → Node → Node
  collect_garbage seq n =
      let rounds = bias seq + 1 - bias 1 in
      record n {
        prepare_certs = delete_from rounds 1 [] n.prepare_certs;
        commit_certs = delete_from rounds 1 [] n.commit_certs;
        pre_prepares = delete_from rounds 1 none n.pre_prepares;
      }

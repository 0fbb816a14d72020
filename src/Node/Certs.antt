-- ===== src/Node/Certs.antt =====
-- Quorum certificates: node/operations.go's getValidPrepareCerts to validateCommits, with
-- node/utils.go's verification of single requests and its datastore.
pub mod Quorum
pub mod Agreement
pub mod Datastore
use pbft_2pc.Prelude.{
  ℕ, zero, suc, String, string_eq, nat_eq, Int64, add64, lt64, max64, bias, ◌+◌, ◌-◌, ◌*◌, Bool,
  true, false, not, Option, none, some, List, [], ◌∷◌, select, length, leb, assign, ◌==◌,
  if◌then◌else◌, ◌&&◌, Result, ok, err, or_fail, or_panic, fail_if, ◌>>=◌, ◌>>◌, is_ok,
}
use pbft_2pc.Messages.{Transaction, PrepareRequest, CommitRequest, Message}
use pbft_2pc.Config.{f, states}
use pbft_2pc.Deps.{Bolt, Codec, Crypto, WalLog}
use pbft_2pc.Cryptox.{verify_signature}
use pbft_2pc.Db.Wal.{append_to_wal_entry}
use pbft_2pc.Node.{Node, TransactionLog, DbUnit, Effect, emit}
use pbft_2pc.Node.Log.{get_public_key, log_digest, update_log}

module _ ⦃bolt : Bolt⦄ ⦃crypto : Crypto⦄ where
  unfoldable pub verify_prepare_request : PrepareRequest → Node → Result (Unit {0})
  verify_prepare_request req n = do
    key ← or_fail (n.public_key_map req.prepare.node_id) "no public key"
    verify_signature key (Message.prepare req.prepare) req.signature
    fail_if (not (log_digest req.prepare.sequence n == req.prepare.digest)) "digest does not match"

  unfoldable pub verify_commit_request : CommitRequest → Node → Result (Unit {0})
  verify_commit_request req n = do
    key ← or_fail (n.public_key_map req.commit.node_id) "no public key"
    verify_signature key (Message.commit req.commit) req.signature
    fail_if (not (log_digest req.commit.sequence n == req.commit.digest)) "digest does not match"

  -- Is a message signed by the node whose name it carries?
  unfoldable pub is_signed_by : String → Message → List ℕ → Node → Bool
  is_signed_by node_id message signature n =
      is_ok (do key ← get_public_key node_id n; verify_signature key message signature)

  -- A verification whose caller ignores the error of `getPublicKey`: RSA dereferences the nil key.
  unfoldable pub verify_ignoring : String → Message → List ℕ → Node → Result (Unit {0})
  verify_ignoring node_id message signature n = do
    key ← or_panic (n.public_key_map node_id)
    verify_signature key message signature

  -- The tests of the loop of `getValidPrepareCerts`, on the entry of the log.
  unfoldable pub is_valid_prepare : TransactionLog → Node → PrepareRequest → Bool
  is_valid_prepare entry n req =
      is_signed_by req.prepare.node_id (Message.prepare req.prepare) req.signature n
      && entry.digest == req.prepare.digest

  unfoldable pub get_valid_prepare_certs : Int64 → List PrepareRequest → Node → List PrepareRequest
  get_valid_prepare_certs seq prepares n = elim (n.transaction_log seq) [
    | none ↦ []
    | some entry ↦ select (is_valid_prepare entry n) prepares
  ]

  unfoldable pub is_valid_commit : TransactionLog → Node → CommitRequest → Bool
  is_valid_commit entry n req =
      is_signed_by req.commit.node_id (Message.commit req.commit) req.signature n
      && not (lt64 entry.state (states "prepared"))
      && entry.digest == req.commit.digest

  unfoldable pub get_valid_commit_certs : Int64 → List CommitRequest → Node → List CommitRequest
  get_valid_commit_certs seq commits n = elim (n.transaction_log seq) [
    | none ↦ []
    | some entry ↦ select (is_valid_commit entry n) commits
  ]

  unfoldable pub validate_prepares : Int64 → List PrepareRequest → Node → Bool × Node
  validate_prepares seq prepares n =
      let certs = get_valid_prepare_certs seq prepares n in
      if leb (2 * f) (length certs)
      then (
        true,
        (let n' = if n.byzantine then n else update_log seq "prepared" n in
            record n' { prepare_certs = assign seq certs n'.prepare_certs }),
      )
      else (false, n)

-- The unit that `saveTransactionToDatastore` stores: nil and 0 where the log has no entry.
unfoldable pub db_unit : Int64 → String → Int64 → Option TransactionLog → DbUnit
db_unit seq status client_seq none = record {
  seq = seq;
  transaction = none;
  status = status;
  timestamp = 0;
  client_seq = client_seq;
}
db_unit seq status client_seq (some entry) = record {
  seq = seq;
  transaction = some entry.transaction;
  status = status;
  timestamp = entry.timestamp;
  client_seq = client_seq;
}

module _ ⦃bolt : Bolt⦄ where
  unfoldable pub save_transaction_to_datastore : Int64 → String → Int64 → Node → Node
  save_transaction_to_datastore seq status client_seq n = record n {
    datastore =
        assign seq (some (db_unit seq status client_seq (n.transaction_log seq))) n.datastore;
    datastore_max = max64 n.datastore_max seq;
  }

  unfoldable pub get_datastore_log : Int64 → Node → Option DbUnit
  get_datastore_log seq n = n.datastore seq

  -- `for i := i; i <= node.DatastoreMax; i++`, with the number of rounds left
  unfoldable pub collect_units : ℕ → Int64 → Node → List DbUnit
  collect_units zero i n = []
  collect_units (suc k) i n =
      let rest = collect_units k (add64 i 1) n in
      elim (n.datastore i) [ none ↦ rest | some u ↦ u ∷ rest ]

  unfoldable pub get_all_datastore : Node → List DbUnit
  get_all_datastore n = collect_units (bias n.datastore_max + 1 - bias 1) 1 n

module _ ⦃bolt : Bolt⦄ ⦃codec : Codec⦄ ⦃crypto : Crypto⦄ where
  -- What an honest node does with a quorum of commits.
  unfoldable pub commit_entry : Int64 → String → Int64 → Transaction → Node → Node
  commit_entry seq status client_seq transaction n =
      let n' = update_log seq "committed" n in
      let wal_log : WalLog = record {
        operation = "transaction";
        subject = "";
        transaction = transaction;
      } in
      let n'' =
        if status == "P"
        then record n' { db = (append_to_wal_entry client_seq (wal_log ∷ []) n'.db).1 }
        else n' in
      save_transaction_to_datastore seq status client_seq n''

  unfoldable pub validate_commits :
      Int64 → List CommitRequest → String → Int64 → Transaction → Node → Bool × Node
  validate_commits seq commits status client_seq transaction n =
      let certs = get_valid_commit_certs seq commits n in
      if leb (2 * f + 1) (length certs)
      then (
        true,
        (let n' = if n.byzantine then n else commit_entry seq status client_seq transaction n in
            emit (Effect.go_save_transaction seq status)
              (record n' { commit_certs = assign seq certs n'.commit_certs })),
      )
      else (false, n)

-- ===== src/Node.antt =====
-- node/node.go: the state of a node, and how it starts. What a method sends, and the goroutines that
-- it starts, it appends to `outbox`. The mutexes are held for the length of one method, which runs as
-- one step; `checkpoint_certs_locked` is the one that a method leaves locked.
pub mod Log
pub mod Certs
pub mod Locking
pub mod Backup
pub mod Primary
pub mod Executor
pub mod TwoPhase
pub mod Checkpoints
pub mod ViewChange
pub mod Service
pub mod Keys
pub mod Report
pub mod Startup
pub mod Menu
use pbft_2pc.Prelude.{
  String, string_eq, nat_eq, Int64, Bool, true, false, Option, none, some, List, [], ◌∷◌, ◌++◌,
  Table, ◌==◌, if◌then◌else◌,
}
use pbft_2pc.Messages.{
  Transaction, SignedClientRequest, PrePrepareRequest, PrepareRequest, CommitRequest,
  SignedCheckpointRequest, SignedViewChangeRequest, NewViewRequest, SignedNewViewRequest,
  SignedReply,
}
use pbft_2pc.Deps.{Bolt, Codec, PublicKey, PrivateKey}
use pbft_2pc.Timer.{Timer, new_timer}
use pbft_2pc.Db.{Database, create_buckets}
use pbft_2pc.Db.Balances.{initiate_balances}

pub record CheckpointData : Type 0 where
  pub stable : Bool
  pub digest : String
  pub balances : List (String × Int64)
  pub certs : List SignedCheckpointRequest
  pub waiting : List SignedCheckpointRequest

pub record RequestData : Type 0 where
  pub seq : Int64
  pub executed : Bool
  pub result : Bool

-- `state` is one of the codes of `config.States`.
pub record TransactionLog : Type 0 where
  pub transaction : Transaction
  pub view : Int64
  pub state : Int64
  pub digest : String
  pub timestamp : Int64
  pub client_seq : Int64

-- node.DBUnit. The transaction is a pointer, nil if the log has no entry.
pub record DbUnit : Type 0 where
  pub seq : Int64
  pub transaction : Option Transaction
  pub status : String
  pub timestamp : Int64
  pub client_seq : Int64

-- A message to another node or to the client, or a goroutine of this node.
pub data Effect : Type 0 where
  send_execute : String → SignedClientRequest → Effect
  send_pre_prepare : String → PrePrepareRequest → Effect
  send_view_change : String → SignedViewChangeRequest → Effect
  send_new_view : String → SignedNewViewRequest → Effect
  send_reply : SignedReply → Effect
  go_start_timer : Effect
  go_send_prepare : Int64 → PrePrepareRequest → String → String → Effect
  go_commit_to_self : Int64 → Effect
  go_save_transaction : Int64 → String → Effect
  go_update_log : Int64 → String → Effect
  go_reply : Int64 → Bool → Int64 → Effect
  go_erase_wal : Int64 → Effect
  go_collect_garbage : Int64 → Effect
  go_send_new_view : Int64 → List SignedViewChangeRequest → Effect
  go_send_view_change : Int64 → Effect
  go_wait_for_commit : SignedClientRequest → Effect

module _ ⦃bolt : Bolt⦄ where
  -- `client_map` lists the nodes of each cluster that this node is connected to: all but itself.
  -- A missing entry of a map to slices reads as the empty slice.
  pub record Node : Type 0 where
    pub cluster_id : String
    pub id : String
    pub client_map : String → List String
    pub datastore : Table Int64 DbUnit
    pub datastore_max : Int64
    pub private_key : PrivateKey
    pub public_key_map : Table String PublicKey
    pub view : Int64
    pub seq : Int64
    pub transaction_log : Table Int64 TransactionLog
    pub pre_prepares : Table Int64 PrePrepareRequest
    pub prepare_chan_made : Int64 → Bool
    pub prepare_certs : Int64 → List PrepareRequest
    pub commit_chan_made : Int64 → Bool
    pub commit_certs : Int64 → List CommitRequest
    pub checkpoint_certs : Table Int64 CheckpointData
    pub checkpoint_certs_locked : Bool
    pub request_log : Table Int64 RequestData
    pub live : Bool
    pub byzantine : Bool
    pub last_stable : Int64
    pub last_stable_balances : List (String × Int64)
    pub view_changing : Bool
    pub new_view_num : Int64
    pub new_view_certs : List NewViewRequest
    pub execution_count : Int64
    pub tmr : Timer
    pub view_change_certs : Int64 → List SignedViewChangeRequest
    pub max_seq : Int64
    pub executor_seq : Int64
    pub new_views_sent : Int64 → Bool
    pub low_water : Int64
    pub high_water : Int64
    pub db : Database
    pub start_id : String
    pub end_id : String
    pub leader_map : Table String String
    pub pc_commits_map : Int64 → Bool
    pub outbox : List Effect

  -- The body of a goroutine, or a sent message, is left to the outbox.
  unfoldable pub emit : Effect → Node → Node
  emit e n = record n { outbox = n.outbox ++ e ∷ [] }

  unfoldable pub emit_all : List Effect → Node → Node
  emit_all es n = record n { outbox = n.outbox ++ es }

  -- The leaders that `establishConns` stores.
  unfoldable pub leaders : Table String String
  leaders cluster =
      if cluster == "C1"
      then some "S1"
      else if cluster == "C2"
      then some "S5"
      else if cluster == "C3"
      then some "S9"
      else none

  module _ ⦃codec : Codec⦄ where
    -- `NewNode`, with the connections, keys and balances that `Start` sets up on it.
    unfoldable pub new_node :
        String
        → String
        → (String → List String)
        → PrivateKey
        → Table String PublicKey
        → String
        → String
        → Node
    unfolding leaders new_timer create_buckets initiate_balances
    new_node cluster_id node_id peers key keys start end = record {
      cluster_id = cluster_id;
      id = node_id;
      client_map = peers;
      datastore = λ _. none;
      datastore_max = 0;
      private_key = key;
      public_key_map = keys;
      view = 1;
      seq = 1;
      transaction_log = λ _. none;
      pre_prepares = λ _. none;
      prepare_chan_made = λ _. false;
      prepare_certs = λ _. [];
      commit_chan_made = λ _. false;
      commit_certs = λ _. [];
      checkpoint_certs = λ _. none;
      checkpoint_certs_locked = false;
      request_log = λ _. none;
      live = true;
      byzantine = false;
      last_stable = 0;
      last_stable_balances = [];
      view_changing = false;
      new_view_num = 0;
      new_view_certs = [];
      execution_count = 0;
      tmr = new_timer;
      view_change_certs = λ _. [];
      max_seq = 0;
      executor_seq = 1;
      new_views_sent = λ _. false;
      low_water = 1;
      high_water = 10;
      db = initiate_balances start end (initiate_balances start end create_buckets);
      start_id = start;
      end_id = end;
      leader_map = leaders;
      pc_commits_map = λ _. false;
      outbox = [];
    }

-- ===== src/Messages.antt =====
-- The protocol messages: the structs that pbft/pbft.pb.go and gateway/clientrpc/client.pb.go declare
-- for pbft/pbft.proto and gateway/clientrpc/client.proto, without protobuf's bookkeeping fields.
-- A pointer to a sub-message is the record itself; `client_req` of a pre-prepare request and `pre_prepare` of prepared messages may be nil.
use pbft_2pc.Prelude.{ℕ, String, Bool, Int64, List, Option}

-- Go's `[]byte`
abbrev pub Bytes : Type 0
Bytes = List ℕ

pub record Transaction : Type 0 where
  pub from : String
  pub to : String
  pub amount : Int64
  pub cluster_from : String
  pub cluster_to : String
  pub client_seq : Int64

-- `timestamp` is the `Seconds` of the protobuf timestamp, the only part that is read or set.
pub record ClientRequest : Type 0 where
  pub transaction : Transaction
  pub timestamp : Int64

pub record SignedClientRequest : Type 0 where
  pub client_request : ClientRequest
  pub signature : Bytes

-- `status` is "" for a transaction inside one shard, and "P", "C" or "A" for a round of
-- two-phase commit. The fields `wal` and `locks` are never set.
pub record PrePrepare : Type 0 where
  pub view : Int64
  pub sequence : Int64
  pub digest : String
  pub status : String

pub record PrePrepareRequest : Type 0 where
  pub pre_prepare : PrePrepare
  pub signature : Bytes
  pub client_req : Option SignedClientRequest

pub record Prepare : Type 0 where
  pub view : Int64
  pub sequence : Int64
  pub digest : String
  pub node_id : String

pub record PrepareRequest : Type 0 where
  pub prepare : Prepare
  pub signature : Bytes

pub record Commit : Type 0 where
  pub view : Int64
  pub sequence : Int64
  pub digest : String
  pub node_id : String

pub record CommitRequest : Type 0 where
  pub commit : Commit
  pub signature : Bytes

pub record Checkpoint : Type 0 where
  pub sequence : Int64
  pub digest : String
  pub node_id : String

pub record SignedCheckpointRequest : Type 0 where
  pub checkpoint : Checkpoint
  pub signature : Bytes

pub record PreparedMessages : Type 0 where
  pub pre_prepare : Option PrePrepareRequest
  pub certs : List PrepareRequest

pub record BalanceStruct : Type 0 where
  pub client : String
  pub amount : Int64

abbrev pub BalanceStructList : Type 0
BalanceStructList = List BalanceStruct

pub record ViewChangeRequest : Type 0 where
  pub view : Int64
  pub last_stable_checkpoint : Int64
  pub checkpoint_certs : List SignedCheckpointRequest
  pub prepared : List PreparedMessages
  pub node_id : String
  pub balances : BalanceStructList

pub record SignedViewChangeRequest : Type 0 where
  pub view_change_request : ViewChangeRequest
  pub signature : Bytes

pub record NewViewRequest : Type 0 where
  pub view : Int64
  pub view_change_certs : List SignedViewChangeRequest
  pub prepared : List PrePrepareRequest
  pub balances : BalanceStructList
  pub latest_stable_checkpoint : Int64
  pub checkpoint_certs : List SignedCheckpointRequest

pub record SignedNewViewRequest : Type 0 where
  pub new_view : NewViewRequest
  pub signature : Bytes

pub record PcPrepareReq : Type 0 where
  pub signed_client_req : SignedClientRequest
  pub commits : List CommitRequest
  pub node_id : String

pub record PcReply : Type 0 where
  pub success : Bool
  pub cluster : String
  pub node_id : String

pub record Reply : Type 0 where
  pub view : Int64
  pub timestamp : Int64
  pub server : String
  pub result : Bool
  pub client_seq : Int64

pub record SignedReply : Type 0 where
  pub reply : Reply
  pub signature : Bytes

-- A message that is signed, the argument `proto.Message` of cryptox's functions.
pub data Message : Type 0 where
  client_request : ClientRequest → Message
  pre_prepare : PrePrepare → Message
  prepare : Prepare → Message
  commit : Commit → Message
  checkpoint : Checkpoint → Message
  view_change : ViewChangeRequest → Message
  new_view : NewViewRequest → Message
  reply : Reply → Message

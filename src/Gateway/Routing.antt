-- ===== src/Gateway/Routing.antt =====
-- gateway/helpers.go's getClusterOfClient and getViewLeader, and the preparation of a transaction
-- in executeTransactions of gateway/operations.go.
pub mod Shards
use pbft_2pc.Prelude.{String, Int64, add64, div64, value_or, Option, none, some, List, []}
use Prim.Native.String.{◌++◌ as string_append}
use pbft_2pc.Messages.{Transaction, ClientRequest, SignedClientRequest, Message}
use pbft_2pc.Deps.{Codec, Crypto, PrivateKey}
use pbft_2pc.Cryptox.{sign_message}
use pbft_2pc.Node.Log.{leader_number, drop_first}

-- `(clientInt / 1000) + 1`
unfoldable pub cluster_number : Int64 → Int64
cluster_number client = add64 (div64 client 1000) 1

module _ ⦃codec : Codec⦄ where
  unfoldable pub get_cluster_of_client : String → String
  unfolding cluster_number
  get_cluster_of_client client =
      string_append "C" (codec.format_int (cluster_number (codec.parse_int client)))

  -- The view of the cluster is that of `ViewMap`, which nothing changes from 1.
  unfoldable pub gateway_view_leader : String → Int64 → String
  unfolding leader_number
  gateway_view_leader cluster view =
      string_append "S"
        (codec.format_int (leader_number (codec.parse_int (drop_first cluster)) view))

  -- What `executeTransactions` fills in.
  unfoldable pub address : Int64 → Transaction → Transaction
  unfolding get_cluster_of_client
  address highest_seq t = record t {
    client_seq = highest_seq;
    cluster_from = get_cluster_of_client t.from;
    cluster_to = get_cluster_of_client t.to;
  }

module _ ⦃crypto : Crypto⦄ where
  -- An error of the signature is only logged.
  unfoldable pub get_signed_client_req : PrivateKey → Transaction → Int64 → SignedClientRequest
  unfolding sign_message
  get_signed_client_req key t timestamp =
      let r : ClientRequest = record { transaction = t; timestamp = timestamp } in
      record {
        client_request = r;
        signature = value_or (sign_message key (Message.client_request r)) [];
      }

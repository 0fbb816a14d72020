-- ===== src/Gateway/Startup.antt =====
-- The start of the gateway: main of gateway/gateway.go up to its menu, and establishConns, initKeys and
-- readPublicKeys of gateway/helpers.go.
pub mod ClientKey
use pbft_2pc.Prelude.{
  String, string_eq, Int64, Option, none, some, List, [], ◌∷◌, ◌++◌, map, Table, assign, ◌==◌,
  if◌then◌else◌, Result, ok, err, panic, ◌>>=◌,
}
use pbft_2pc.Deps.{PublicKey, PrivateKey, KeyText}
use pbft_2pc.Cryptox.KeyFiles.{Files, save_rsa_public_key_to_file}
use pbft_2pc.Node.Keys.{read_public_keys}
use pbft_2pc.Gateway.Input.{Plan, NodeStruct, ClusterStruct, read_csv, read_json}
use pbft_2pc.Gateway.Replies.{Gateway}

-- `establishConns`: the servers with a client, a name for each, and the view of each cluster. The
-- clusters come with the names of their servers, in the order of the loops.
unfoldable pub gateway_conns : List (String × List String) → (List String) × Table String Int64
gateway_conns [] = ([], λ cluster. none)
gateway_conns ((cluster, nodes) ∷ clusters) =
    let (clients, views) = gateway_conns clusters in
    (nodes ++ clients, assign cluster (some 1) views)

-- What `main` has made when it shows the menu for the first time.
pub record Started : Type 0 where
  pub plan : Plan
  pub cluster_node_map : List (String × List String)
  pub clients : List String
  pub view_map : Table String Int64

-- `main` up to the menu, with the decoded configuration and the records of the input file. An error
-- of readCsv ends the process with a message.
unfoldable pub gateway_main : List (String × ClusterStruct) → List (List String) → Result Started
unfolding read_csv read_json gateway_conns
gateway_main clusters records = do
  let nodes = (read_json clusters).1
  plan ← read_csv nodes records
  let conns = gateway_conns nodes
  ok (record { plan = plan; cluster_node_map = nodes; clients = conns.0; view_map = conns.1 })

module _ ⦃keys : KeyText⦄ where
  -- The gateway's `initKeys` with the keys that were generated; an error of the save is dropped.
  unfoldable pub gateway_init_keys : PrivateKey → Files → PrivateKey × Files
  unfolding save_rsa_public_key_to_file
  gateway_init_keys key files =
      (key, (save_rsa_public_key_to_file key.public_key "../keys/client_pub.pem" files).1)

  -- One walk of `readPublicKeys`.
  unfoldable pub gateway_reads_keys : List String → Files → Gateway → Gateway
  unfolding read_public_keys
  gateway_reads_keys paths files g = record g {
    public_key_map = read_public_keys paths files g.public_key_map;
  }

-- ===== src/Node/Startup.antt =====
-- The start of a node: main of main.go, NewNode of node/node.go with the map of the nodes, and
-- establishConns of node/utils.go.
pub mod Peers
use pbft_2pc.Prelude.{
  String, string_eq, Bool, true, false, not, Option, none, some, List, [], ◌∷◌, select, contains,
  Table, assign, ◌==◌, if◌then◌else◌, Result, ok, err, panic, fail_if, value_or, ◌>>=◌, ◌>>◌,
}
use pbft_2pc.Deps.{Bolt, Codec, PublicKey, PrivateKey}
use pbft_2pc.Node.{Node, new_node}

-- `ClusterStruct` of the package `node`: each node of the configuration is its identity and its port.
pub record ClusterStruct : Type 0 where
  pub nodes : List (String × String)
  pub start : String
  pub end : String

-- `clusters[clusterId]`; a cluster that is missing reads as the zero value.
unfoldable pub cluster_of : List (String × ClusterStruct) → String → ClusterStruct
cluster_of [] cluster_id = record { nodes = []; start = ""; end = "" }
cluster_of ((c, found) ∷ clusters) cluster_id =
    let rest = cluster_of clusters cluster_id in if c == cluster_id then found else rest

-- The inner loop of `NewNode`.
unfoldable pub fill_ports : List (String × String) → Table String String → Table String String
fill_ports [] ports = ports
fill_ports ((id, port) ∷ nodes) ports = fill_ports nodes (assign id (some port) ports)

-- `nodeMap`, by cluster and node
unfoldable pub node_map : List (String × ClusterStruct) → String → Table String String
unfolding cluster_of fill_ports
node_map clusters cluster_id = fill_ports (cluster_of clusters cluster_id).nodes (λ id. none)

-- `nodeMap[clusterId][nodeId]`, the port at which the node listens; "" if the node is not listed
unfoldable pub port_of : List (String × ClusterStruct) → String → String → String
unfolding node_map
port_of clusters cluster_id node_id = elim (node_map clusters cluster_id node_id) [
  | none ↦ ""
  | some port ↦ port
]

-- The keys of the map of a cluster's nodes, in one of the orders of its iteration: a name that is listed
-- twice is one key.
unfoldable pub names : List (String × String) → List String
names [] = []
names ((id, port) ∷ nodes) = let rest = names nodes in if contains rest id then rest else id ∷ rest

-- The clients that `establishConns` makes: the nodes of each cluster but the node itself.
unfoldable pub establish_conns : List (String × ClusterStruct) → String → String → List String
unfolding cluster_of names
establish_conns clusters node_id cluster_id =
    select (λ id. not (node_id == id)) (names (cluster_of clusters cluster_id).nodes)

module _ ⦃bolt : Bolt⦄ ⦃codec : Codec⦄ where
  -- `main`, once the configuration is decoded, with the node that its `Start` has connected and the keys
  -- that `initKeys` makes and reads, and the port at which it listens. Without one of the flags the
  -- process ends with a message.
  unfoldable pub main :
      String
      → String
      → List (String × ClusterStruct)
      → PrivateKey
      → Table String PublicKey
      → Result (Node × String)
  unfolding establish_conns port_of cluster_of
  main node_id cluster_id clusters key keys = do
    fail_if (node_id == "") "Node ID is required"
    fail_if (cluster_id == "") "Cluster ID is required"
    ok (
      new_node cluster_id node_id (establish_conns clusters node_id) key keys
          (cluster_of clusters cluster_id).start (cluster_of clusters cluster_id).end,
      port_of clusters cluster_id node_id,
    )

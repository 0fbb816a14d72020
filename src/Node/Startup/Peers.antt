-- ===== src/Node/Startup/Peers.antt =====
-- The peers of a node that was started, to which it sends its pre-prepares.
use pbft_2pc.Prelude.{
  ap, sym, String, string_eq, not, ◌&&◌, List, [], ◌∷◌, map, select, contains, Table, ◌==◌, ok,
  fail_if, >>=-eq-ok, ok-injective, Bool-cases, inl, inr, ◌≡◌, refl, arith, eq_iff, contains-select,
}
use pbft_2pc.Deps.{Bolt, Codec, Crypto, PublicKey, PrivateKey}
use pbft_2pc.Node.{Node, new_node}
use pbft_2pc.Node.Primary.{peers}
use pbft_2pc.Node.Startup.{ClusterStruct, cluster_of, names, establish_conns, main}

-- The names that the configuration lists for a cluster.
abbrev listed : List (String × ClusterStruct) → String → List String
listed clusters cluster_id = map (λ p. p.0) (cluster_of clusters cluster_id).nodes

contains-names :
    (nodes : List (String × String)) (x : String)
    → contains (names nodes) x ≡ contains (map (λ p. p.0) nodes) x
unfolding names
contains-names [] x = refl
contains-names ((id, port) ∷ nodes) x = elim (Bool-cases (contains (names nodes) id)) [
  | inl seen ↦ elim (Bool-cases (x == id)) [
    | inl same ↦
        (let e = sym ((eq_iff x id).0 same) in
          ground (arith, contains-names nodes x, seen, rw e at seen))
    | inr other ↦ ground (arith, contains-names nodes x, seen, other)
  ]
  | inr new ↦ ground (arith, contains-names nodes x, new)
]

module _ ⦃bolt : Bolt⦄ ⦃codec : Codec⦄ ⦃crypto : Crypto⦄ where
  started :
      (node_id cluster_id : String) (clusters : List (String × ClusterStruct)) (key : PrivateKey)
      (keys : Table String PublicKey) (n : Node) (port : String)
      → main node_id cluster_id clusters key keys ≡ ok (n, port)
      → (n.id ≡ node_id) × (n.client_map n.cluster_id ≡ establish_conns clusters node_id cluster_id)
  unfolding main new_node
  started node_id cluster_id clusters key keys n port h =
      let (_, _, h1) = >>=-eq-ok (fail_if (node_id == "") "Node ID is required") _ h in
      let (_, _, h2) = >>=-eq-ok (fail_if (cluster_id == "") "Cluster ID is required") _ h1 in
      let same = ok-injective h2 in
      (ap (λ p. p.0.id) (sym same), ap (λ p. p.0.client_map p.0.cluster_id) (sym same))

  -- If `main` starts a node, the node's peers are exactly the names that the configuration lists for its
  -- cluster, its own excepted.
  peers-main :
      (node_id cluster_id : String) (clusters : List (String × ClusterStruct)) (key : PrivateKey)
      (keys : Table String PublicKey) (n : Node) (port x : String)
      → main node_id cluster_id clusters key keys ≡ ok (n, port)
      → contains (peers n) x ≡ (contains (listed clusters cluster_id) x && not (node_id == x))
  unfolding peers establish_conns
  peers-main node_id cluster_id clusters key keys n port x h =
      let nodes = (cluster_of clusters cluster_id).nodes in
      let (name, clients) = started node_id cluster_id clusters key keys n port h in
      rw (name, clients)
        (ground (
          arith,
          contains-select (λ id. not (id == node_id))
              (select (λ id. not (node_id == id)) (names nodes)) x,
          contains-select (λ id. not (node_id == id)) (names nodes) x,
          contains-names nodes x,
          eq_iff node_id x,
          eq_iff x node_id,
        ))

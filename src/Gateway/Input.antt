-- ===== src/Gateway/Input.antt =====
-- The input of the gateway: readCsv of gateway/helpers.go, from the records that the CSV reader
-- returns, and readJson, from the clusters that the JSON decoder returns.
pub mod Readable
pub mod Sets
pub mod Bounds
use pbft_2pc.Prelude.{
  ℕ, zero, suc, String, string_eq, nat_eq, Int64, add64, max64, Bool, true, false, Option, none,
  some, List, [], ◌∷◌, ◌++◌, map, contains, assign, Table, ◌==◌, if◌then◌else◌, Result, ok, err,
  panic, ◌>>=◌, ◌>>◌,
}
use pbft_2pc.Messages.{Transaction}
use pbft_2pc.Strings.{split, trim, trim_space, atoi}

-- `s[i]`, which panics out of range
abbrev pub index {ℓ} : {A : Type ℓ} → List A → ℕ → Result A
index [] i = panic
index (x ∷ xs) zero = ok x
index (x ∷ xs) (suc i) = index xs i

-- The fields of the `Gateway` that `readCsv` fills in. A map without a key reads as 0 or as no list.
pub record Plan : Type 0 where
  pub max_set_num : Int64
  pub transaction_count_map : Int64 → Int64
  pub set_transactions_map : Int64 → List Transaction
  pub live_servers_map : Int64 → List String
  pub cluster_live_servers_map : Int64 → String → List String
  pub byzantine_servers_map : Int64 → List String

unfoldable pub empty_plan : Plan
empty_plan = record {
  max_set_num = 0;
  transaction_count_map = λ i. 0;
  set_transactions_map = λ i. [];
  live_servers_map = λ i. [];
  cluster_live_servers_map = λ i c. [];
  byzantine_servers_map = λ i. [];
}

-- `strings.Split(strings.Trim(field, "[]"), ",")`, each part trimmed. The list of "[]" is one empty name.
unfoldable pub read_list : String → List String
read_list field = map trim_space (split "," (trim field "[]"))

-- The first cluster that lists a server, in the order in which `range` visits the clusters, which Go
-- leaves open.
unfoldable pub find_cluster : List (String × List String) → String → Option String
find_cluster [] server = none
find_cluster ((cluster, nodes) ∷ clusters) server =
    let rest = find_cluster clusters server in if contains nodes server then some cluster else rest

-- The live servers of each cluster.
unfoldable pub by_cluster :
    List (String × List String) → List String → (String → List String) → String → List String
unfolding find_cluster
by_cluster clusters [] m = m
by_cluster clusters (server ∷ servers) m = elim (find_cluster clusters server) [
  | none ↦ by_cluster clusters servers m
  | some cluster ↦ by_cluster clusters servers (assign cluster (m cluster ++ server ∷ []) m)
]

-- A record that starts with a number: a new set. The fourth field is read and not used.
unfoldable pub start_set : List (String × List String) → Int64 → List String → Plan → Result Plan
unfolding read_list by_cluster
start_set clusters set row p = do
  live ← index row 2
  byzantine ← index row 4
  contact ← index row 3
  ok (record p {
    max_set_num = max64 set p.max_set_num;
    live_servers_map = assign set (read_list live) p.live_servers_map;
    cluster_live_servers_map =
        assign set (by_cluster clusters (read_list live) (λ c. [])) p.cluster_live_servers_map;
    byzantine_servers_map = assign set (read_list byzantine) p.byzantine_servers_map;
  })

-- The transaction of a record. An amount that is no number is only logged, and what `Atoi` returns
-- with its error is used.
unfoldable pub read_transaction : List String → Result Transaction
read_transaction row = do
  text ← index row 1
  from ← index (split "," (trim text "()")) 0
  to ← index (split "," (trim text "()")) 1
  amount ← index (split "," (trim text "()")) 2
  ok (record {
    from = trim_space from;
    to = trim_space to;
    amount = (atoi (trim_space amount)).0;
    cluster_from = "";
    cluster_to = "";
    client_seq = 0;
  })

-- It goes to the set with the largest number so far.
unfoldable pub add_transaction : Transaction → Plan → Plan
add_transaction t p =
    let i = p.max_set_num in
    record p {
      transaction_count_map =
          assign i (add64 (p.transaction_count_map i) 1) p.transaction_count_map;
      set_transactions_map = assign i (p.set_transactions_map i ++ t ∷ []) p.set_transactions_map;
    }

-- One round of the loop over the records.
unfoldable pub read_row : List (String × List String) → List String → Plan → Result Plan
unfolding start_set read_transaction add_transaction
read_row clusters row p = do
  first ← index row 0
  p' ←
      (if (atoi (trim_space first)).1
        then start_set clusters (atoi (trim_space first)).0 row p
        else ok p)
  t ← read_transaction row
  ok (add_transaction t p')

unfoldable pub read_rows : List (String × List String) → List (List String) → Plan → Result Plan
unfolding read_row
read_rows clusters [] p = ok p
read_rows clusters (row ∷ rows) p = read_row clusters row p >>= λ p'. read_rows clusters rows p'

-- `readCsv`, once the file is read: the maps are new and replace those of the gateway.
unfoldable pub read_csv : List (String × List String) → List (List String) → Result Plan
unfolding read_rows empty_plan
read_csv clusters records = read_rows clusters records empty_plan

pub record NodeStruct : Type 0 where
  pub id : String
  pub port : String

pub record ClusterStruct : Type 0 where
  pub nodes : List NodeStruct
  pub start : String
  pub end : String

-- The inner loop of `readJson` fills in the ports and the list of one cluster.
unfoldable pub read_nodes :
    List NodeStruct → Table String String → List String → Table String String × List String
read_nodes [] ports ids = (ports, ids)
read_nodes (n ∷ ns) ports ids = read_nodes ns (assign n.id (some n.port) ports) (ids ++ n.id ∷ [])

-- `readJson`, once the file is decoded, for each cluster in the order of the loop: `NodeMap` and
-- `ClusterNodeMap`.
unfoldable pub read_json :
    List (String × ClusterStruct)
    → (List (String × Table String String)) × (List (String × List String))
unfolding read_nodes
read_json [] = ([], [])
read_json ((cluster, c) ∷ clusters) =
    let (ports, ids) = read_nodes c.nodes (λ k. none) [] in
    let (node_map, cluster_node_map) = read_json clusters in
    ((cluster, ports) ∷ node_map, (cluster, ids) ∷ cluster_node_map)

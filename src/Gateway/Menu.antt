-- ===== src/Gateway/Menu.antt =====
-- The other choices of the menu of gateway/gateway.go: the balance of a client on the servers of its
-- cluster, and the datastores of all servers; and printAllLatencies of gateway/helpers.go. What is
-- printed is a list of lines. The answers of the servers are arguments.
use pbft_2pc.Prelude.{
  ℕ, zero, suc, ◌+◌, ◌-◌, String, string_eq, nat_eq, Int64, add64, bias, none, some, List, [], ◌∷◌,
  ◌++◌, map, contains, if◌then◌else◌, Result, ok, err, panic, ◌>>=◌, or_panic,
}
use Prim.Native.String.{◌++◌ as string_append}
use pbft_2pc.Deps.{Codec, SavedUnit}
use pbft_2pc.Node.Log.{drop_first}
use pbft_2pc.Node.Report.{concat}
use pbft_2pc.Node.ViewChange.{sort_seqs}
use pbft_2pc.Gateway.Routing.{get_cluster_of_client}
use pbft_2pc.Gateway.Latency.{Latencies}

-- `%-3s`: blanks behind a text that has fewer than three characters.
unfoldable pub pad : ℕ → String → String
pad zero text = text
pad (suc k) String.[] = string_append " " (pad k "")
pad (suc k) (String.◌∷◌ c text) = String.◌∷◌ c (pad k text)

module _ ⦃codec : Codec⦄ where
  -- What the choice "2" prints of the answer of one server.
  unfoldable pub balance_line : String → String → Result Int64 → Result String
  unfolding pad
  balance_line client node (ok balance) =
      ok (concat (pad 3 node ∷ ": " ∷ codec.format_int balance ∷ "\n" ∷ []))
  balance_line client node (err text) =
      ok (concat ("Error getting balance of " ∷ client ∷ " from " ∷ node ∷ ": " ∷ text ∷ "\n" ∷ []))
  balance_line client node panic = panic

  -- The loop of the choice "2": `clients` are the servers with a connection.
  unfoldable pub balance_lines :
      List String → (String → Result Int64) → String → List String → Result (List String)
  unfolding balance_line
  balance_lines clients answer client [] = ok []
  balance_lines clients answer client (node ∷ nodes) = do
    line ← if contains clients node then balance_line client node (answer node) else panic
    rest ← balance_lines clients answer client nodes
    ok (line ∷ rest)

  -- The choice "2": `cluster_node_map` has the servers of each cluster.
  unfoldable pub show_balances :
      List String → (String → Result Int64) → (String → List String) → String → Result (List String)
  unfolding balance_lines get_cluster_of_client
  show_balances clients answer cluster_node_map client =
      balance_lines clients answer client (cluster_node_map (get_cluster_of_client client))

  unfoldable pub unit_line : SavedUnit → Result String
  unit_line u = do
    t ← or_panic u.transaction
    ok (
        concat (
          codec.format_int u.seq
          ∷ ". ("
          ∷ t.from
          ∷ ", "
          ∷ t.to
          ∷ ", "
          ∷ codec.format_int t.amount
          ∷ ") "
          ∷ u.status
          ∷ "\n"
          ∷ []))

  unfoldable pub unit_lines : List SavedUnit → Result (List String)
  unfolding unit_line
  unit_lines [] = ok []
  unit_lines (u ∷ us) = do line ← unit_line u; rest ← unit_lines us; ok (line ∷ rest)

  -- What the choice "3" prints of the answer of one server.
  unfoldable pub datastore_lines : String → Result (List SavedUnit) → Result (List String)
  unfolding unit_lines
  datastore_lines node (ok us) = do
    lines ← unit_lines us
    ok (concat (node ∷ "\n-------\n" ∷ []) ∷ lines ++ "\n" ∷ [])
  datastore_lines node (err text) =
      ok (concat ("Error getting datastore from " ∷ node ∷ ": " ∷ text ∷ "\n" ∷ []) ∷ [])
  datastore_lines node panic = panic

  -- The second loop of the choice "3".
  unfoldable pub all_datastores :
      List String → (String → Result (List SavedUnit)) → List Int64 → Result (List String)
  unfolding datastore_lines
  all_datastores clients answer [] = ok []
  all_datastores clients answer (number ∷ numbers) = do
    let node = string_append "S" (codec.format_int number)
    lines ← if contains clients node then datastore_lines node (answer node) else panic
    rest ← all_datastores clients answer numbers
    ok (lines ++ rest)

  -- The choice "3": the servers in the order of their numbers, which are read from their names.
  unfoldable pub show_datastores :
      List String → (String → Result (List SavedUnit)) → Result (List String)
  unfolding all_datastores sort_seqs
  show_datastores clients answer =
      all_datastores clients answer
        (sort_seqs (map (λ node. codec.parse_int (drop_first node)) clients))

  -- The loop of `printAllLatencies` from a transaction on, with the number of rounds left. How a
  -- duration is shown is an argument.
  unfoldable pub latency_lines : (Int64 → String) → ℕ → Int64 → Latencies → List String
  latency_lines show_duration zero i m = []
  latency_lines show_duration (suc k) i m =
      let rest = latency_lines show_duration k (add64 i 1) m in
      elim (m.transaction_latency i) [
        | none ↦ concat ("No data for seq: " ∷ codec.format_int i ∷ "\n" ∷ []) ∷ rest
        | some r ↦
            concat (
              codec.format_int i
              ∷ ". ("
              ∷ r.transaction.from
              ∷ ", "
              ∷ r.transaction.to
              ∷ ", "
              ∷ codec.format_int r.transaction.amount
              ∷ ") "
              ∷ show_duration r.latency
              ∷ " "
              ∷ (if r.success then "success" else "abort")
              ∷ "\n"
              ∷ [])
            ∷ rest
      ]

  unfoldable pub print_all_latencies : (Int64 → String) → Int64 → Latencies → List String
  unfolding latency_lines
  print_all_latencies show_duration highest_seq m =
      latency_lines show_duration (bias highest_seq + 1 - bias 1) 1 m

-- ===== src/Tests/Clients.antt =====
-- The gateway reads an input of two sets, tells the servers, and runs the sets.
use pbft_2pc.Prelude.{
  ◌+◌, ◌*◌, ◌%◌, ◌^◌, arith, String, string_eq, nat_eq, list_eq, Int64, true, false, some, List, [],
  ◌∷◌, ok, panic, Result, err, ◌≡◌, ◌⊎◌, refl, length, contains,
}
use pbft_2pc.Deps.{PrivateKey}
use pbft_2pc.Instances.{list_bolt, decimal_codec, toy_crypto, sample}
use pbft_2pc.Gateway.Input.{
  Plan, empty_plan, read_list, find_cluster, by_cluster, start_set, read_transaction,
  add_transaction, read_row, read_rows, read_csv,
}
use pbft_2pc.Gateway.Input.Readable.{are_readable, read_csv-outcome}
use pbft_2pc.Gateway.Input.Sets.{planned, read_csv-planned}
use pbft_2pc.Gateway.Input.Bounds.{IsWithin, read_csv-IsWithin}
use pbft_2pc.Gateway.Servers.{
  ServerCall, call_all, set_live_servers, set_byzantine_servers, deliver_all,
}
use pbft_2pc.Gateway.Servers.Delivery.{servers_as_listed}
use pbft_2pc.Gateway.Routing.{address, get_signed_client_req}
use pbft_2pc.Gateway.Execution.{
  Progress, start_progress, start_transaction, execute_transactions, next_set, next_sets,
}
use pbft_2pc.Gateway.Execution.Numbers.{sets_from, Numbered, next_sets-Numbered}
use pbft_2pc.Gateway.Latency.{Latencies, set_wise_latency, overall_latency}
use pbft_2pc.Gateway.Latency.Totals.{total_count, total_duration, overall_latency-set_wise_latency}
use pbft_2pc.Tests.Data.{key_of, start_node}

abbrev clusters : List (String × List String)
clusters = ("C1", "S1" ∷ "S2" ∷ []) ∷ ("C2", "S5" ∷ []) ∷ []

abbrev records : List (List String)
records =
    ("1" ∷ "(7, 1500, 4)" ∷ "[S1, S2]" ∷ "[S1]" ∷ "[]" ∷ [])
    ∷ ("" ∷ "(7,8,1)" ∷ "" ∷ "" ∷ "" ∷ [])
    ∷ (" 2 " ∷ "(1500, 7, x)" ∷ "[S1,S5]" ∷ "[S5]" ∷ "[S5]" ∷ [])
    ∷ []

-- The plan that a run leaves, or the empty one.
abbrev plan_of : Result Plan → Plan
plan_of (ok p) = p
plan_of (err e) = empty_plan
plan_of panic = empty_plan

abbrev plan : Plan
plan = plan_of (read_csv clusters records)

reads : read_csv clusters records ≡ ok plan
unfolding empty_plan read_list find_cluster by_cluster start_set read_transaction add_transaction
    read_row read_rows read_csv
reads = refl

first_set : (read_list "[S1, S2]" ≡ "S1" ∷ "S2" ∷ []) × (read_list "[]" ≡ "" ∷ [])
unfolding read_list
first_set = (refl, refl)

read_csv-outcome_example :
    ((are_readable records ≡ true) × (p : Plan) × (read_csv clusters records ≡ ok p))
    ⊎ ((are_readable records ≡ false) × (read_csv clusters records ≡ panic))
read_csv-outcome_example = read_csv-outcome clusters records

read_csv-planned_example :
    (plan.set_transactions_map 1 ≡ planned 0 1 records)
    × (plan.transaction_count_map 1 ≡ length (planned 0 1 records) % 2 ^ 64)
read_csv-planned_example = read_csv-planned clusters records plan 1 reads

read_csv-IsWithin_example : IsWithin 3 plan
read_csv-IsWithin_example = read_csv-IsWithin clusters records plan 3 reads

abbrev nodes : List String
nodes = "S1" ∷ "S2" ∷ "S5" ∷ []

servers_as_listed_example :
    (calls : List ServerCall) × (calls' : List ServerCall) × (set_live_servers nodes nodes
        ("S1" ∷ "S5" ∷ [])
      ≡ ok calls)
    × (set_byzantine_servers nodes nodes ("S5" ∷ "" ∷ []) ≡ ok calls')
    × (let after = deliver_all calls' (deliver_all calls (λ n. start_node "S1")) "S5" in
        (after.live ≡ contains {A = String} ("S1" ∷ "S5" ∷ []) "S5")
        × (after.byzantine ≡ contains {A = String} ("S5" ∷ "" ∷ []) "S5"))
servers_as_listed_example =
    servers_as_listed nodes nodes ("S1" ∷ "S5" ∷ []) ("S5" ∷ "" ∷ []) (λ n. start_node "S1") "S5"
      (refl, (refl, (refl, tt))) (refl, tt) refl refl

abbrev client_key : PrivateKey
client_key = record { public_key = key_of "client"; private_exponent = 7 }

abbrev clock : Int64 → Int64
clock seq = 1000 + 50 * seq

-- The progress that a run leaves, or that of the start.
abbrev progress_of : Result Progress → Progress
progress_of (ok g) = g
progress_of (err e) = start_progress
progress_of panic = start_progress

abbrev done : Progress
done = progress_of (next_sets 2 client_key clock nodes nodes plan start_progress)

runs : next_sets 2 client_key clock nodes nodes plan start_progress ≡ ok done
unfolding empty_plan read_list find_cluster by_cluster start_set read_transaction add_transaction
    read_row read_rows read_csv call_all set_live_servers set_byzantine_servers address
    get_signed_client_req start_progress start_transaction execute_transactions next_set next_sets
runs = refl

next_sets-Numbered_example :
    (done.highest_seq ≡ length (sets_from 2 1 plan))
    × Numbered 0 (sets_from 2 1 plan) done.seq_transaction_map
unfolding empty_plan read_list find_cluster by_cluster start_set read_transaction add_transaction
    read_row read_rows read_csv
next_sets-Numbered_example =
    next_sets-Numbered 2 client_key clock nodes nodes plan done (ground arith) (ground arith)
      (ground arith) runs

abbrev measured : Latencies
measured = record {
  seq_transaction_map = done.seq_transaction_map;
  start_time_map = λ i. some 100;
  transaction_latency =
      λ i. some (record { transaction = sample; latency = 10 * i; success = true });
}

overall_latency-set_wise_latency_example : overall_latency 2 plan.transaction_count_map measured ≡ (
  total_count (set_wise_latency 2 plan.transaction_count_map measured),
  total_duration (set_wise_latency 2 plan.transaction_count_map measured),
)
overall_latency-set_wise_latency_example =
    overall_latency-set_wise_latency 2 plan.transaction_count_map measured

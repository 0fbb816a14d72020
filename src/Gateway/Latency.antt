-- ===== src/Gateway/Latency.antt =====
-- Latencies of gateway/helpers.go: storeLatency, and the numbers that printSetWiseLatency and
-- printOverallLatency print. A time is its number of nanoseconds; the throughput, a floating-point
-- number, is left out.
pub mod Totals
use pbft_2pc.Prelude.{
  ℕ, zero, suc, ◌+◌, ◌-◌, String, nat_eq, Int64, add64, sub64, div64, bias, Bool, Option, none,
  some, List, [], ◌∷◌, assign, Table, ◌==◌, if◌then◌else◌,
}
use pbft_2pc.Messages.{Transaction}

pub record ResultStruct : Type 0 where
  pub transaction : Transaction
  pub latency : Int64
  pub success : Bool

pub record Latencies : Type 0 where
  pub seq_transaction_map : Table Int64 Transaction
  pub start_time_map : Table Int64 Int64
  pub transaction_latency : Table Int64 ResultStruct

-- What an attempt of `sendTransaction` stores.
unfoldable pub store_start : Int64 → Int64 → Latencies → Latencies
store_start client_seq now m = record m {
  start_time_map = assign client_seq (some now) m.start_time_map;
}

-- `storeLatency`: the first result of a transaction stays.
unfoldable pub store_latency : Int64 → Int64 → Bool → Latencies → Latencies
store_latency client_seq end_time result m = elim (m.seq_transaction_map client_seq) [
  | none ↦ m
  | some transaction ↦ elim (m.start_time_map client_seq) [
    | none ↦ m
    | some start_time ↦ elim (m.transaction_latency client_seq) [
      | some known ↦ m
      | none ↦ record m {
        transaction_latency =
            assign client_seq
              (some (record {
                transaction = transaction;
                latency = sub64 end_time start_time;
                success = result;
              }))
              m.transaction_latency;
      }
    ]
  ]
]

-- `for j := j; j <= last; j++` with the number of rounds left: the sum of the latencies that are known
unfoldable pub sum_latencies : ℕ → Int64 → Int64 → Latencies → Int64
sum_latencies zero j duration m = duration
sum_latencies (suc k) j duration m =
    sum_latencies k (add64 j 1)
      (elim (m.transaction_latency j) [ none ↦ duration | some r ↦ add64 duration r.latency ]) m

-- The rounds of the inner loop, `j := lastSeq + 1; j <= lastSeq+count`.
unfoldable pub inner_rounds : Int64 → Int64 → ℕ
inner_rounds last_seq count = bias (add64 last_seq count) + 1 - bias (add64 last_seq 1)

-- What is printed of one set: its number, its count, and the latency of a transaction if there is one.
pub record SetLine : Type 0 where
  pub number : Int64
  pub count : Int64
  pub duration : Int64

-- The loop of `printSetWiseLatency` from set `i` with the rounds left.
unfoldable pub set_lines : ℕ → Int64 → Int64 → (Int64 → Int64) → Latencies → List SetLine
unfolding sum_latencies inner_rounds
set_lines zero i last_seq counts m = []
set_lines (suc k) i last_seq counts m =
    let count = counts i in
    let line : SetLine = record {
      number = i;
      count = count;
      duration = sum_latencies (inner_rounds last_seq count) (add64 last_seq 1) 0 m;
    } in
    line ∷ set_lines k (add64 i 1) (add64 last_seq count) counts m

unfoldable pub set_wise_latency : Int64 → (Int64 → Int64) → Latencies → List SetLine
unfolding set_lines
set_wise_latency max_executed_set counts m =
    set_lines (bias max_executed_set + 1 - bias 1) 1 0 counts m

-- The loop of `printOverallLatency`: the count and the duration.
unfoldable pub overall_from :
    ℕ → Int64 → Int64 → Int64 → Int64 → (Int64 → Int64) → Latencies → Int64 × Int64
unfolding sum_latencies inner_rounds
overall_from zero i last_seq total duration counts m = (total, duration)
overall_from (suc k) i last_seq total duration counts m =
    let count = counts i in
    overall_from k (add64 i 1) (add64 last_seq count) (add64 total count)
      (sum_latencies (inner_rounds last_seq count) (add64 last_seq 1) duration m) counts m

unfoldable pub overall_latency : Int64 → (Int64 → Int64) → Latencies → Int64 × Int64
unfolding overall_from
overall_latency max_executed_set counts m =
    overall_from (bias max_executed_set + 1 - bias 1) 1 0 0 0 counts m

-- The latency per transaction that is printed, where the duration is not 0.
unfoldable pub per_transaction : Int64 → Int64 → Option Int64
per_transaction count duration = if duration == 0 then none else some (div64 duration count)

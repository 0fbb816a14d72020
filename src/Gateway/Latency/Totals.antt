-- ===== src/Gateway/Latency/Totals.antt =====
-- The overall latency against the set-wise one.
use pbft_2pc.Prelude.{
  ap, sym, ◌∙◌, ℕ, zero, suc, ◌+◌, ◌-◌, Int64, IsInt64, add64, bias, List, [], ◌∷◌, ◌≡◌, refl,
  arith, Option-cases, inl, inr,
}
use pbft_2pc.Gateway.Latency.{
  Latencies, SetLine, sum_latencies, inner_rounds, set_lines, set_wise_latency, overall_from,
  overall_latency,
}

-- The sums of the counts and of the durations of some lines.
abbrev pub total_count : List SetLine → Int64
total_count [] = 0
total_count (l ∷ ls) = add64 l.count (total_count ls)

abbrev pub total_duration : List SetLine → Int64
total_duration [] = 0
total_duration (l ∷ ls) = add64 l.duration (total_duration ls)

add64_zero : (a : Int64) → IsInt64 a → add64 a 0 ≡ a
add64_zero a small = omega arith

zero_add64 : (a : Int64) → IsInt64 a → add64 0 a ≡ a
zero_add64 a small = omega arith

small_count : (ls : List SetLine) → IsInt64 (total_count ls)
small_count [] = omega arith
small_count (l ∷ ls) = omega arith

small_duration : (ls : List SetLine) → IsInt64 (total_duration ls)
small_duration [] = omega arith
small_duration (l ∷ ls) = omega arith

add64_assoc : (a b c : Int64) → add64 (add64 a b) c ≡ add64 a (add64 b c)
add64_assoc a b c = omega arith

-- The duration that the loop starts with is added to the rest.
sum_latencies-add64 :
    (k : ℕ) (j d e : Int64) (m : Latencies)
    → sum_latencies k j (add64 d e) m ≡ add64 d (sum_latencies k j e m)
unfolding sum_latencies
sum_latencies-add64 zero j d e m = refl
sum_latencies-add64 (suc k) j d e m = elim (Option-cases (m.transaction_latency j)) [
  | inl missing ↦ rw missing (sum_latencies-add64 k (add64 j 1) d e m)
  | inr (r, found) ↦
      rw (found, add64_assoc d e r.latency)
        (sum_latencies-add64 k (add64 j 1) d (add64 e r.latency) m)
]

overall_from-set_lines :
    (k : ℕ) (i last_seq total duration : Int64) (counts : Int64 → Int64) (m : Latencies)
    → IsInt64 total
    → IsInt64 duration
    → let ls = set_lines k i last_seq counts m in
      overall_from k i last_seq total duration counts m
      ≡ (add64 total (total_count ls), add64 duration (total_duration ls))
unfolding overall_from set_lines
overall_from-set_lines zero i last_seq total duration counts m small small' =
    rw (add64_zero total small, add64_zero duration small') refl
overall_from-set_lines (suc k) i last_seq total duration counts m small small' =
    let count = counts i in
    let rounds = inner_rounds last_seq count in
    let first = add64 last_seq 1 in
    let one = sum_latencies rounds first 0 m in
    let ls = set_lines k (add64 i 1) (add64 last_seq count) counts m in
    let split : sum_latencies rounds first duration m ≡ add64 duration one =
      ap (λ d. sum_latencies rounds first d m) (sym (add64_zero duration small'))
      ∙ sum_latencies-add64 rounds first duration 0 m in
    let rest =
      overall_from-set_lines k (add64 i 1) (add64 last_seq count) (add64 total count)
        (add64 duration one) counts m (omega arith) (omega arith) in
    rw split (
      rest
      ∙ rw (add64_assoc total count (total_count ls), add64_assoc duration one (total_duration ls))
          refl)

-- The count and the duration of printOverallLatency are the sums of those that printSetWiseLatency has
-- for the sets up to the last one that was executed, as 64-bit integers.
pub overall_latency-set_wise_latency :
    (max_executed_set : Int64) (counts : Int64 → Int64) (m : Latencies)
    → let ls = set_wise_latency max_executed_set counts m in
      overall_latency max_executed_set counts m ≡ (total_count ls, total_duration ls)
unfolding overall_latency set_wise_latency
overall_latency-set_wise_latency max_executed_set counts m =
    let rounds = bias max_executed_set + 1 - bias 1 in
    let ls = set_lines rounds 1 0 counts m in
    overall_from-set_lines rounds 1 0 0 0 counts m (omega arith) (omega arith)
    ∙ rw
        (
          zero_add64 (total_count ls) (small_count ls),
          zero_add64 (total_duration ls) (small_duration ls),
        )
        refl

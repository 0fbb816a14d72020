-- ===== src/Gateway/Replies/Counting.antt =====
-- What the counts of replies say when the gateway decides.
use pbft_2pc.Prelude.{
  ap, sym, ◌∙◌, ℕ, ◌+◌, ◌%◌, ◌^◌, ◌<◌, length-select-le, ◌≡◌, Int64, IsInt64, nat_eq, Bool, true,
  false, not, ◌&&◌, none, some, List, [], ◌∷◌, length, select, leb, ◌==◌, if◌then◌else◌, ok,
  Bool-cases, Option-cases, inl, inr, arith, >>=-eq-ok, ok-injective,
}
use pbft_2pc.Gateway.Replies.{
  ReplyResult, Counts, Gateway, count_result, read_reply, read_replies, start_attempt, decision,
}

-- How many of the results read are for a timestamp and have a value.
abbrev pub with_result : Int64 → Bool → List ReplyResult → ℕ
with_result timestamp b rs =
    length (select (λ r. r.timestamp == timestamp && (if b then r.result else not r.result)) rs)

read_reply-some :
    (r : ReplyResult) (g : Gateway) (ts : Int64) (c : Counts)
    → g.res_count_map ts ≡ some c
    → (g' : Gateway) → read_reply r g ≡ ok g'
    → g'.res_count_map ts ≡ some (if r.timestamp == ts then count_result r.result c else c)
unfolding read_reply
read_reply-some r g ts c h g' done = ground (arith, Option-cases (g.res_count_map r.timestamp))

-- The counts after some results, from those before them.
abbrev counted : Int64 → List ReplyResult → Counts → Counts
counted ts [] c = c
counted ts (r ∷ rs) c = counted ts rs (if r.timestamp == ts then count_result r.result c else c)

read_replies-some :
    (rs : List ReplyResult) (g : Gateway) (ts : Int64) (c : Counts)
    → g.res_count_map ts ≡ some c
    → (g' : Gateway) → read_replies rs g ≡ ok g'
    → g'.res_count_map ts ≡ some (counted ts rs c)
unfolding read_replies
read_replies-some [] g ts c h g' done =
    ap (λ (m : Gateway). m.res_count_map ts) (sym (ok-injective done)) ∙ h
read_replies-some (r ∷ rs) g ts c h g' done =
    let (g1, first, rest) = >>=-eq-ok (read_reply r g) (λ m. read_replies rs m) done in
    read_replies-some rs g1 ts _ (read_reply-some r g ts c h g1 first) g' rest

-- One result adds one to one of the counts, or to none.
count_one :
    (ts : Int64) (r : ReplyResult) (c : Counts)
    → IsInt64 c.successes
    → IsInt64 c.failures
    → let c' = if r.timestamp == ts then count_result r.result c else c in
      (c'.successes ≡ (c.successes + (if r.timestamp == ts && r.result then 1 else 0)) % 2 ^ 64)
      × (c'.failures ≡ (c.failures + (if r.timestamp == ts && not r.result then 1 else 0)) % 2 ^ 64)
unfolding count_result
count_one ts r c hs hf = elim (Bool-cases r.result) [
  | inl good ↦ (ground (arith, good), ground (arith, good))
  | inr bad ↦ (ground (arith, bad), ground (arith, bad))
]

with_result_cons :
    (ts : Int64) (b : Bool) (r : ReplyResult) (rs : List ReplyResult)
    → with_result ts b (r ∷ rs)
      ≡ (if r.timestamp == ts && (if b then r.result else not r.result) then 1 else 0)
        + with_result ts b rs
with_result_cons ts b r rs = ground arith

started :
    (client_seq ts : Int64) (g : Gateway)
    → (start_attempt client_seq ts g).res_count_map ts
      ≡ some (record { successes = 0; failures = 0 })
unfolding start_attempt
started client_seq ts g = ground arith

counted_lem :
    (ts : Int64) (rs : List ReplyResult) (c : Counts)
    → IsInt64 c.successes
    → IsInt64 c.failures
    → ((counted ts rs c).successes ≡ (c.successes + with_result ts true rs) % 2 ^ 64)
      × ((counted ts rs c).failures ≡ (c.failures + with_result ts false rs) % 2 ^ 64)
counted_lem ts [] c hs hf = (ground arith, ground arith)
counted_lem ts (r ∷ rs) c hs hf =
    let c' = if r.timestamp == ts then count_result r.result c else c in
    let (good, bad) = count_one ts r c hs hf in
    let (goods, bads) = counted_lem ts rs c' (ground (arith, good)) (ground (arith, bad)) in
    (
      ground (arith, goods, good, with_result_cons ts true r rs),
      ground (arith, bads, bad, with_result_cons ts false r rs),
    )

-- The decision at a timestamp, once the results read since its attempt started are counted: fewer than
-- 2^63 of them, all of timestamps that were sent, in any order. It is `true` exactly if two or more are
-- for this timestamp and true, and otherwise `false` exactly if two or more are for it and false. A
-- server that replies twice is counted twice.
pub decision-read_replies :
    (client_seq ts : Int64) (rs : List ReplyResult) (g g' : Gateway)
    → length rs < 2 ^ 63
    → read_replies rs (start_attempt client_seq ts g) ≡ ok g'
    → decision ts g' ≡ (
        if leb 2 (with_result ts true rs)
        then some true
        else if leb 2 (with_result ts false rs)
        then some false
        else none)
unfolding decision
decision-read_replies client_seq ts rs g g' few done =
    let zeros : Counts = record { successes = 0; failures = 0 } in
    let final = read_replies-some rs _ ts zeros (started client_seq ts g) g' done in
    let (goods, bads) = counted_lem ts rs zeros (ground arith) (ground arith) in
    ground (
      arith,
      final,
      goods,
      bads,
      length-select-le (λ r. r.timestamp == ts && (if true then r.result else not r.result)) rs,
      length-select-le (λ r. r.timestamp == ts && (if false then r.result else not r.result)) rs,
    )

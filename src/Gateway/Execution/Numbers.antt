-- ===== src/Gateway/Execution/Numbers.antt =====
-- The sequence numbers that the gateway gives to the transactions of the sets.
use mathlib.Core.Path.{subst}
use pbft_2pc.Prelude.{
  sym, ◌∙◌, ℕ, zero, suc, ◌+◌, ◌%◌, ◌^◌, ◌≤◌, ◌<◌, String, nat_eq, Int64, add64, le64, Table, true,
  some, List, [], ◌∷◌, ◌++◌, length, length-append, ok, >>=-eq-ok, ok-injective, ◌≡◌, refl, arith,
}
use pbft_2pc.Messages.{Transaction}
use pbft_2pc.Deps.{Codec, Crypto, PrivateKey}
use pbft_2pc.Gateway.Input.{Plan}
use pbft_2pc.Gateway.Routing.{address}
use pbft_2pc.Gateway.Servers.{set_live_servers, set_byzantine_servers}
use pbft_2pc.Gateway.Execution.{
  Progress, start_progress, start_transaction, execute_transactions, next_set, next_sets,
}

-- The transactions of some sets in a row, from one on.
abbrev pub sets_from : ℕ → Int64 → Plan → List Transaction
sets_from zero i plan = []
sets_from (suc k) i plan = plan.set_transactions_map i ++ sets_from k (i + 1) plan

module _ ⦃codec : Codec⦄ ⦃crypto : Crypto⦄ where
  -- Some transactions have the sequence numbers behind `h`, in order.
  abbrev pub Numbered : Int64 → List Transaction → Table Int64 Transaction → Type 0
  Numbered h [] m = Unit
  Numbered h (t ∷ ts) m = (m (h + 1) ≡ some (address (h + 1) t)) × Numbered (h + 1) ts m

  -- What a run has added: the transactions `ts`, while the numbers given before are kept.
  abbrev Added : List Transaction → Progress → Progress → Type 0
  Added ts g g' =
      (g'.highest_seq ≡ g.highest_seq + length ts)
      × Numbered g.highest_seq ts g'.seq_transaction_map
      × ((j : ℕ) → j ≤ g.highest_seq → g'.seq_transaction_map j ≡ g.seq_transaction_map j)

  start_transaction-Added :
      (key : PrivateKey) (timestamp : Int64) (t : Transaction) (g : Progress)
      → g.highest_seq + 1 < 2 ^ 64
      → Added (t ∷ []) g (start_transaction key timestamp t g)
  unfolding start_transaction
  start_transaction-Added key timestamp t g small =
      let next : (g.highest_seq + 1) % 2 ^ 64 ≡ g.highest_seq + 1 = omega (arith, small) in
      rw next (ground arith, (ground arith, tt), λ j below. ground (arith, below))

  Numbered-kept :
      (h : ℕ) (ts : List Transaction) (m m' : Table Int64 Transaction)
      → ((j : ℕ) → j ≤ h + length ts → m' j ≡ m j)
      → Numbered h ts m
      → Numbered h ts m'
  Numbered-kept h [] m m' kept _ = tt
  Numbered-kept h (t ∷ ts) m m' kept (here, later) = (
    kept (h + 1) (omega arith) ∙ here,
    Numbered-kept (h + 1) ts m m' (λ j below. kept j (omega (arith, below))) later,
  )

  behind :
      {h : ℕ} (h' : ℕ) (ts : List Transaction) (m : Table Int64 Transaction)
      → h ≡ h'
      → Numbered h ts m
      → Numbered h' ts m
  behind h' ts m same = subst (λ i. Numbered i ts m) same

  Numbered-append :
      (h : ℕ) (ts us : List Transaction) (m : Table Int64 Transaction)
      → Numbered h ts m
      → Numbered (h + length ts) us m
      → Numbered h (ts ++ us) m
  Numbered-append h [] us m _ later = behind h us m (omega arith) later
  Numbered-append h (t ∷ ts) us m (here, rest) later = (
    here,
    Numbered-append (h + 1) ts us m rest (behind (h + 1 + length ts) us m (omega arith) later),
  )

  Added-twice :
      (ts us : List Transaction) (g g1 g' : Progress)
      → Added ts g g1
      → Added us g1 g'
      → Added (ts ++ us) g g'
  Added-twice ts us g g1 g' (high, here, kept) (high', later, kept') = (
    omega (arith, high, high', length-append ts us),
    Numbered-append g.highest_seq ts us g'.seq_transaction_map
        (Numbered-kept g.highest_seq ts g1.seq_transaction_map _
          (λ j below. kept' j (omega (arith, high, below))) here)
        (behind (g.highest_seq + length ts) us _ high later),
    λ j below. kept' j (omega (arith, high, below)) ∙ kept j below,
  )

  execute_transactions-Added :
      (key : PrivateKey) (clock : Int64 → Int64) (ts : List Transaction) (g : Progress)
      → g.highest_seq + length ts < 2 ^ 64
      → Added ts g (execute_transactions key clock ts g)
  unfolding execute_transactions
  execute_transactions-Added key clock [] g small = (omega arith, tt, λ j below. refl)
  execute_transactions-Added key clock (t ∷ ts) g small =
      let g1 = start_transaction key (clock (add64 g.highest_seq 1)) t g in
      let one =
        start_transaction-Added key (clock (add64 g.highest_seq 1)) t g (omega (arith, small)) in
      Added-twice (t ∷ []) ts g g1 (execute_transactions key clock ts g1) one
        (execute_transactions-Added key clock ts g1 (omega (arith, one.0, small)))

  next_set-Added :
      (key : PrivateKey) (clock : Int64 → Int64) (clients nodes : List String) (plan : Plan)
      (g g' : Progress)
      → le64 g.set plan.max_set_num ≡ true
      → g.highest_seq + length (plan.set_transactions_map g.set) < 2 ^ 64
      → next_set key clock clients nodes plan g ≡ ok g'
      → (g'.set ≡ add64 g.set 1)
        × (g'.max_executed_set ≡ g.set)
        × (Added (plan.set_transactions_map g.set) g g')
  unfolding next_set
  next_set-Added key clock clients nodes plan g g' within small h =
      let h' = rw within at h in
      let (risen, _, h1) = >>=-eq-ok (set_live_servers clients nodes _) _ h' in
      let (faulty, _, h2) = >>=-eq-ok (set_byzantine_servers clients nodes _) _ h1 in
      let g1 = record g { current_set = g.set; calls = g.calls ++ risen ++ faulty } in
      let added = execute_transactions-Added key clock (plan.set_transactions_map g.set) g1 small in
      rw (sym (ok-injective h2)) (refl, refl, added)

  le64-nonneg : (i m : ℕ) → i ≤ m → m < 2 ^ 63 → le64 i m ≡ true
  le64-nonneg i m h small = ground arith

  next_sets-Added :
      (k : ℕ) (key : PrivateKey) (clock : Int64 → Int64) (clients nodes : List String) (plan : Plan)
      (g g' : Progress)
      → g.set + k ≤ plan.max_set_num + 1
      → plan.max_set_num < 2 ^ 63
      → g.highest_seq + length (sets_from k g.set plan) < 2 ^ 64
      → next_sets k key clock clients nodes plan g ≡ ok g'
      → (g'.set ≡ g.set + k) × (Added (sets_from k g.set plan) g g')
  unfolding next_sets
  next_sets-Added zero key clock clients nodes plan g g' within few small h =
      rw (sym (ok-injective h)) (omega arith, (omega arith, tt, λ j below. refl))
  next_sets-Added (suc k) key clock clients nodes plan g g' within few small h =
      let (g1, first, rest) = >>=-eq-ok (next_set key clock clients nodes plan g) _ h in
      let ts = plan.set_transactions_map g.set in
      let us = sets_from k (g.set + 1) plan in
      let all = length-append ts us in
      let fits : g.highest_seq + length ts < 2 ^ 64 = omega (arith, small, all) in
      let in_range = le64-nonneg g.set plan.max_set_num (omega (arith, within)) few in
      let (next, _, one) = next_set-Added key clock clients nodes plan g g1 in_range fits first in
      let step : g1.set ≡ g.set + 1 = omega (arith, next, within, few) in
      let fits' : g1.highest_seq + length us < 2 ^ 64 = omega (arith, one.0, small, all) in
      let (next', later) =
        next_sets-Added k key clock clients nodes plan g1 g' (omega (arith, step, within)) few
          (rw step fits') rest in
      (
        omega (arith, next', step),
        Added-twice ts us g g1 g' one (subst (λ i. Added (sets_from k i plan) g1 g') step later),
      )

  -- If the choice "1" of the menu is made `k` times from the start, where the sets 1 to `k` are all at
  -- most the maximum, a non-negative int, and have less than 2^64 transactions together, and no
  -- server without a client is met, then the transactions of these sets have the client sequence
  -- numbers 1, 2, 3 and so on, set by set and in the order of each set, each with the clusters of its
  -- two clients, and the highest number is the number of these transactions.
  pub next_sets-Numbered :
      (k : ℕ) (key : PrivateKey) (clock : Int64 → Int64) (clients nodes : List String) (plan : Plan)
      (g : Progress)
      → k ≤ plan.max_set_num
      → plan.max_set_num < 2 ^ 63
      → length (sets_from k 1 plan) < 2 ^ 64
      → next_sets k key clock clients nodes plan start_progress ≡ ok g
      → (g.highest_seq ≡ length (sets_from k 1 plan))
        × Numbered 0 (sets_from k 1 plan) g.seq_transaction_map
  unfolding start_progress
  next_sets-Numbered k key clock clients nodes plan g within few small h =
      let (_, (high, numbered, _)) =
        next_sets-Added k key clock clients nodes plan start_progress g (omega (arith, within)) few
          (omega (arith, small)) h in
      (omega (arith, high), numbered)

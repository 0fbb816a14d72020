-- ===== src/Node/Executor/Order.antt =====
-- The executor runs the committed transactions in the order of their sequence numbers, without a gap.
use mathlib.Core.Path.{subst}
use pbft_2pc.Prelude.{
  Table, IsInt64, ap, sym, ◌∙◌, ℕ, zero, suc, ◌+◌, ◌%◌, ◌^◌, String, string_eq, Int64, add64, none,
  some, List, [], ◌∷◌, length, ok, ◌≡◌, refl, arith,
}
use pbft_2pc.Messages.{Transaction}
use pbft_2pc.Deps.{Bolt, Codec}
use pbft_2pc.Db.Balances.{get_balance}
use pbft_2pc.Db.Balances.Effect.{map_result}
use pbft_2pc.Node.{Node, DbUnit}
use pbft_2pc.Node.Executor.{executor_step, executor_rounds}
use pbft_2pc.Node.Executor.Units.{
  adjusted_all, NoAbort, run_unit, run_unit_effect, executed_all, get_balance-executed_all,
}

module _ ⦃bolt : Bolt⦄ ⦃codec : Codec⦄ where
  executor_step-some :
      (u : DbUnit) (t : Transaction) (n : Node)
      → n.datastore n.executor_seq ≡ some u
      → u.transaction ≡ some t
      → executor_step n ≡ ok (run_unit u t n)
  unfolding executor_step
  executor_step-some u t n there known = rw (there, executor_step) (rw known refl)

  executor_step-none : (n : Node) → n.datastore n.executor_seq ≡ none → executor_step n ≡ ok n
  unfolding executor_step
  executor_step-none n missing = rw (missing, executor_step) refl

  -- The executor sleeps for as long as the next unit is missing, whatever units come later.
  executor_waits :
      (k : ℕ) (n : Node) → n.datastore n.executor_seq ≡ none → executor_rounds k n ≡ ok n
  unfolding executor_rounds
  executor_waits zero n missing = refl
  executor_waits (suc k) n missing = rw (executor_step-none n missing) (executor_waits k n missing)

  -- The units of a table at consecutive sequence numbers from one on, each with its transaction.
  abbrev pub Consecutive : Table Int64 DbUnit → Int64 → List (DbUnit × Transaction) → Type 0
  Consecutive units i [] = Unit
  Consecutive units i ((u, t) ∷ us) =
      (units i ≡ some u) × (u.transaction ≡ some t) × Consecutive units (add64 i 1) us

  -- How the executor stands after some units.
  abbrev pub HasRun : List (DbUnit × Transaction) → Node → Node → Type 0
  HasRun us n n' =
      (n'.datastore ≡ n.datastore)
      × (n'.executor_seq ≡ (n.executor_seq + length us) % 2 ^ 64)
      × (n'.db ≡ executed_all us n.db)

  run_units :
      (us : List (DbUnit × Transaction)) (k : ℕ) (n : Node)
      → IsInt64 n.executor_seq
      → Consecutive n.datastore n.executor_seq us
      → (n' : Node) × (executor_rounds (length us + k) n ≡ executor_rounds k n') × HasRun us n n'
  unfolding executor_rounds
  run_units [] k n small _ =
      let none_left : 0 + k ≡ k = ground arith in
      (n, ap (λ m. executor_rounds m n) none_left, (refl, ground arith, refl))
  run_units ((u, t) ∷ us) k n small (there, known, rest) =
      let (kept, next, db) = run_unit_effect u t n in
      let step = executor_step-some u t n there known in
      let n1 = run_unit u t n in
      let one_more : length ((u, t) ∷ us) + k ≡ suc (length us + k) = ground arith in
      let (n', ran, (same, seq, final)) = run_units us k n1 (ground (arith, next)) (
        subst (λ m. Consecutive m n1.executor_seq us) (sym kept)
          (subst (λ i. Consecutive n.datastore i us) (sym next) rest)) in
      (
        n',
        ap (λ m. executor_rounds m n) one_more ∙ rw (step, executor_rounds) ran,
        (same ∙ kept, ground (arith, seq, next), final ∙ ap (executed_all us) db),
      )

  -- If the datastore has units at the sequence numbers from the executor's on, each with its
  -- transaction, and none at the number after them, then as many rounds of the executor as there are
  -- units, or any number more, end: they have run these units in the order of their sequence numbers
  -- and no other, and the executor waits at the first number that is missing.
  pub executor_rounds-HasRun :
      (us : List (DbUnit × Transaction)) (k : ℕ) (n : Node)
      → IsInt64 n.executor_seq
      → Consecutive n.datastore n.executor_seq us
      → n.datastore ((n.executor_seq + length us) % 2 ^ 64) ≡ none
      → (n' : Node) × (executor_rounds (length us + k) n ≡ ok n') × HasRun us n n'
  executor_rounds-HasRun us k n small there missing =
      let (n', ran, (same, seq, final)) = run_units us k n small there in
      let stuck : n'.datastore n'.executor_seq ≡ none = rw (same, seq) missing in
      (n', ran ∙ executor_waits k n' stuck, (same, seq, final))

  -- The balances after the executor has run the units that are there, when none of them aborts: each
  -- client of the shard has its balance changed by the transactions of the units of status "" and "P",
  -- in the order of their sequence numbers. A unit of status "C" moves no money again.
  pub executor_rounds_balances :
      (us : List (DbUnit × Transaction)) (k : ℕ) (n : Node)
      → IsInt64 n.executor_seq
      → Consecutive n.datastore n.executor_seq us
      → n.datastore ((n.executor_seq + length us) % 2 ^ 64) ≡ none
      → NoAbort us
      → (n' : Node) × (executor_rounds (length us + k) n ≡ ok n')
        × ((j : String) → get_balance j n'.db ≡ map_result (adjusted_all us j) (get_balance j n.db))
  executor_rounds_balances us k n small there missing kept =
      let (n', ran, (_, _, final)) = executor_rounds-HasRun us k n small there missing in
      (n', ran, λ j. ap (get_balance j) final ∙ get_balance-executed_all us j n.db kept)

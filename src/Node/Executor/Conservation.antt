-- ===== src/Node/Executor/Conservation.antt =====
-- The executors of the two shards of a run: the sum of all the balances.
use mathlib.Core.List.{Permᴰ}
use pbft_2pc.Prelude.{
  ap, sym, ◌∙◌, ℕ, ◌+◌, ◌*◌, ◌%◌, ◌^◌, String, string_eq, IsInt64, add64, false, none, List, [],
  ◌∷◌, ◌++◌, length, select, map, All, ◌==◌, ◌||◌, ok, ◌≡◌, refl, arith, Bool-cases, inl, inr,
}
use pbft_2pc.Messages.{Transaction}
use pbft_2pc.Deps.{Bolt, Codec}
use pbft_2pc.Db.{Database}
use pbft_2pc.Db.Balances.{get_balance, update_balances}
use pbft_2pc.Db.Balances.Total.{occurs, total, AllInShard, total-update_balances}
use pbft_2pc.Db.Balances.Effect.{get_balance-update_balances}
use pbft_2pc.Node.{Node, DbUnit}
use pbft_2pc.Node.Executor.{executor_rounds}
use pbft_2pc.Node.Executor.Units.{
  map_result-id, executed, executed_all, change, NoAbort, get_balance-executed,
}
use pbft_2pc.Node.Executor.Order.{Consecutive, executor_rounds-HasRun}

abbrev sum {ℓ} : {A : Type ℓ} → (A → ℕ) → List A → ℕ
sum g [] = 0
sum g (x ∷ xs) = g x + sum g xs

sum-append {ℓ} : {A : Type ℓ} (g : A → ℕ) (xs ys : List A) → sum g (xs ++ ys) ≡ sum g xs + sum g ys
sum-append g [] ys = omega arith
sum-append g (x ∷ xs) ys = omega (arith, sum-append g xs ys)

sum-Permᴰ {ℓ} : {A : Type ℓ} (g : A → ℕ) {xs ys : List A} → Permᴰ xs ys → sum g xs ≡ sum g ys
sum-Permᴰ g Permᴰ.nil = refl
sum-Permᴰ g (Permᴰ.cons e p) = omega (arith, ap g e, sum-Permᴰ g p)
sum-Permᴰ g (Permᴰ.swap e e') = omega (arith, ap g e, ap g e')
sum-Permᴰ g (Permᴰ.trans p q) = sum-Permᴰ g p ∙ sum-Permᴰ g q

-- The transactions that move money: those of the units of status "" and "P".
abbrev pub moving : List (DbUnit × Transaction) → List Transaction
moving us = map (λ p. p.1) (select (λ p. p.0.status == "" || p.0.status == "P") us)

-- What the listed clients pay and what they receive in some transactions.
abbrev pub paid : List String → List Transaction → ℕ
paid ids ts = sum (λ (t : Transaction). occurs t.from ids * t.amount) ts

abbrev pub received : List String → List Transaction → ℕ
received ids ts = sum (λ (t : Transaction). occurs t.to ids * t.amount) ts

flows :
    (ids : List String) (own shared ts : List Transaction)
    → Permᴰ ts (own ++ shared)
    → (paid ids ts ≡ paid ids own + paid ids shared)
      × (received ids ts ≡ received ids own + received ids shared)
flows ids own shared ts perm =
    (sum-Permᴰ _ perm ∙ sum-append _ own shared, sum-Permᴰ _ perm ∙ sum-append _ own shared)

module _ ⦃bolt : Bolt⦄ ⦃codec : Codec⦄ where
  AllInShard-executed :
      (u : DbUnit) (t : Transaction) (ids : List String) (d : Database)
      → (u.status == "A") ≡ false
      → AllInShard ids d
      → AllInShard ids (executed u.status u.client_seq t d)
  AllInShard-executed u t [] d kept _ = tt
  AllInShard-executed u t (j ∷ js) d kept ((b, e), rest) = (
    (change u t j b, get_balance-executed u t j d kept ∙ rw e refl),
    AllInShard-executed u t js d kept rest,
  )

  total_ext :
      (ids : List String) (d d' : Database)
      → ((j : String) → get_balance j d ≡ get_balance j d')
      → total ids d ≡ total ids d'
  total_ext [] d d' same = refl
  total_ext (j ∷ js) d d' same = rw (same j, total_ext js d d' same) refl

  -- One unit that does not abort.
  total-executed :
      (u : DbUnit) (t : Transaction) (ids : List String) (d : Database)
      → (u.status == "A") ≡ false
      → IsInt64 t.amount
      → AllInShard ids d
      → (total ids (executed u.status u.client_seq t d) + paid ids (moving ((u, t) ∷ []))) % 2 ^ 64
        ≡ (total ids d + received ids (moving ((u, t) ∷ []))) % 2 ^ 64
  total-executed u t ids d kept small there =
      let d' = executed u.status u.client_seq t d in
      elim (Bool-cases (u.status == "" || u.status == "P")) [
        | inl moves ↦
            (let same : (j : String) → get_balance j d' ≡ get_balance j (update_balances t d) = λ j.
                get_balance-executed u t j d kept ∙ rw (moves, get_balance-update_balances) refl in
              rw (total_ext ids d' (update_balances t d) same, moves)
                (omega (arith, total-update_balances t ids d small there)))
        | inr rests ↦
            (let same : (j : String) → get_balance j d' ≡ get_balance j d =
                λ j. get_balance-executed u t j d kept ∙ rw rests (sym (map_result-id _)) in
              rw (total_ext ids d' d same, rests) refl)
      ]

  paid_cons :
      (ids : List String) (u : DbUnit) (t : Transaction) (us : List (DbUnit × Transaction))
      → paid ids (moving ((u, t) ∷ us)) ≡ paid ids (moving ((u, t) ∷ [])) + paid ids (moving us)
  paid_cons ids u t us = ground arith

  received_cons :
      (ids : List String) (u : DbUnit) (t : Transaction) (us : List (DbUnit × Transaction))
      → received ids (moving ((u, t) ∷ us))
        ≡ received ids (moving ((u, t) ∷ [])) + received ids (moving us)
  received_cons ids u t us = ground arith

  total-executed_all :
      (us : List (DbUnit × Transaction)) (ids : List String) (d : Database)
      → NoAbort us
      → All (λ p. IsInt64 p.1.amount) us
      → AllInShard ids d
      → (total ids (executed_all us d) + paid ids (moving us)) % 2 ^ 64
        ≡ (total ids d + received ids (moving us)) % 2 ^ 64
  total-executed_all [] ids d _ _ there = refl
  total-executed_all ((u, t) ∷ us) ids d (kept, rest) (small, smalls) there =
      let d' = executed u.status u.client_seq t d in
      omega (
        arith,
        paid_cons ids u t us,
        received_cons ids u t us,
        total-executed u t ids d kept small there,
        total-executed_all us ids d' rest smalls (AllInShard-executed u t ids d kept there),
      )

  -- The datastore has some units at the numbers from the executor's on and none after them; none of the
  -- units aborts, and each amount is an int64.
  abbrev pub IsReady : List (DbUnit × Transaction) → Node → Type 0
  IsReady us n =
      IsInt64 n.executor_seq
      × Consecutive n.datastore n.executor_seq us
      × (n.datastore ((n.executor_seq + length us) % 2 ^ 64) ≡ none)
      × NoAbort us
      × All (λ p. IsInt64 p.1.amount) us

  executor_rounds-total :
      (us : List (DbUnit × Transaction)) (ids : List String) (k : ℕ) (n : Node)
      → IsReady us n
      → AllInShard ids n.db
      → (m : Node) × (executor_rounds (length us + k) n ≡ ok m)
        × ((total ids m.db + paid ids (moving us)) % 2 ^ 64
            ≡ (total ids n.db + received ids (moving us)) % 2 ^ 64)
  executor_rounds-total us ids k n (small, there, missing, kept, smalls) known =
      let (m, ran, (_, _, final)) = executor_rounds-HasRun us k n small there missing in
      (m, ran, rw final (total-executed_all us ids n.db kept smalls known))

  -- A transaction that is listed equally often as a payment and as a receipt.
  abbrev pub IsBalanced : List String → Transaction → Type 0
  IsBalanced ids t = occurs t.from ids ≡ occurs t.to ids

  paid_within :
      (ids : List String) (ts : List Transaction)
      → All (IsBalanced ids) ts
      → paid ids ts ≡ received ids ts
  paid_within ids [] _ = refl
  paid_within ids (t ∷ ts) (here, later) =
      ap (λ (i : ℕ). i * t.amount + paid ids ts) here
      ∙ ap (λ (i : ℕ). occurs t.to ids * t.amount + i) (paid_within ids ts later)

  paid_across :
      (ids ids' : List String) (ts : List Transaction)
      → All (λ t. occurs t.from ids + occurs t.from ids' ≡ occurs t.to ids + occurs t.to ids') ts
      → paid ids ts + paid ids' ts ≡ received ids ts + received ids' ts
  paid_across ids ids' [] _ = refl
  paid_across ids ids' (t ∷ ts) (here, later) =
      omega (arith, ap (λ (i : ℕ). i * t.amount) here, paid_across ids ids' ts later)

  -- Two executors, one of each shard of some cross-shard transactions, each with units ahead of it of
  -- which none aborts. The transactions that move money in a shard are those inside the shard and the
  -- cross-shard ones, in any order, different in the two shards if need be. Then both executors run
  -- their units, and afterwards the sum of the balances of both shards is what it was before.
  pub executors_conserve :
      (ids ids' : List String) (own own' shared : List Transaction)
      (us us' : List (DbUnit × Transaction)) (k k' : ℕ) (n n' : Node)
      → IsReady us n
      → IsReady us' n'
      → AllInShard ids n.db
      → AllInShard ids' n'.db
      → Permᴰ (moving us) (own ++ shared)
      → Permᴰ (moving us') (own' ++ shared)
      → All (IsBalanced ids) own
      → All (IsBalanced ids') own'
      → All
          (λ t. occurs t.from ids + occurs t.from ids' ≡ occurs t.to ids + occurs t.to ids')
          shared
      → (m : Node) × (m' : Node) × (executor_rounds (length us + k) n ≡ ok m)
        × (executor_rounds (length us' + k') n' ≡ ok m')
        × (add64 (total ids m.db) (total ids' m'.db) ≡ add64 (total ids n.db) (total ids' n'.db))
  executors_conserve ids ids' own own' shared us us' k k' n n' ready ready' known known' perm perm'
        within within' across =
      let (m, ran, change1) = executor_rounds-total us ids k n ready known in
      let (m', ran', change2) = executor_rounds-total us' ids' k' n' ready' known' in
      let flow = flows ids own shared (moving us) perm in
      let flow' = flows ids' own' shared (moving us') perm' in
      (
        m,
        m',
        ran,
        ran',
        omega (
          arith,
          change1,
          change2,
          flow.0,
          flow.1,
          flow'.0,
          flow'.1,
          paid_within ids own within,
          paid_within ids' own' within',
          paid_across ids ids' shared across,
        ),
      )

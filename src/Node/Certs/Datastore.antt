-- ===== src/Node/Certs/Datastore.antt =====
-- The list of the committed units that GetAllDatastore of node/utils.go makes of the map.
use mathlib.Core.Option.{some-injective}
use pbft_2pc.Prelude.{
  ap, sym, ◌∙◌, ℕ, zero, suc, ◌+◌, ◌-◌, ◌^◌, ◌≤◌, ◌<◌, String, nat_eq, Int64, add64, bias, Option,
  ◌≢◌, none, some, List, [], ◌∷◌, ◌==◌, ◌≡◌, ◌⊎◌, refl, inl, inr, arith, Bool-cases, Option-cases,
}
use native.Mathlib.Decide.{dec_lt}
use pbft_2pc.Deps.{Bolt}
use pbft_2pc.Node.{Node, DbUnit, TransactionLog}
use pbft_2pc.Node.Certs.{db_unit, save_transaction_to_datastore, collect_units, get_all_datastore}

-- An element of a list.
abbrev pub IsListed : DbUnit → List DbUnit → Type 0
IsListed u [] = ⊥
IsListed u (v ∷ us) = (u ≡ v) ⊎ IsListed u us

-- Each unit has a greater number than the one before it, the first at least a given one.
abbrev pub AscendingFrom : ℕ → List DbUnit → Type 0
AscendingFrom low [] = Unit
AscendingFrom low (u ∷ us) = (low ≤ u.seq) × AscendingFrom (u.seq + 1) us

AscendingFrom-le :
    (low high : ℕ) (us : List DbUnit) → low ≤ high → AscendingFrom high us → AscendingFrom low us
AscendingFrom-le low high [] le _ = tt
AscendingFrom-le low high (u ∷ us) le (first, rest) = (omega (arith, first, le), rest)

IsListed-cons : (u v : DbUnit) (us : List DbUnit) → IsListed u (v ∷ us) → (u ≡ v) ⊎ IsListed u us
IsListed-cons u v us h = h

next_le : (i j k : ℕ) → i ≤ j → i + suc k < 2 ^ 63 → i ≢ j → add64 i 1 ≤ j
next_le i j k low small other = omega (arith, low, small, other)

module _ ⦃bolt : Bolt⦄ where
  -- The nodes whose datastore comes from an empty one by saves, with anything between them that leaves
  -- it alone. The numbers are positive, and below the greatest int64, at which the loop of
  -- GetAllDatastore would not end.
  pub data Filled : Node → Type 0 where
    empty : (n : Node) → ((i : Int64) → n.datastore i ≡ none) → n.datastore_max ≡ 0 → Filled n
    saved :
        (n : Node) (seq : Int64) (status : String) (client_seq : Int64)
        → 1 ≤ seq
        → seq + 1 < 2 ^ 63
        → Filled n
        → Filled (save_transaction_to_datastore seq status client_seq n)
    elsewhere :
        (n n' : Node)
        → n'.datastore ≡ n.datastore
        → n'.datastore_max ≡ n.datastore_max
        → Filled n
        → Filled n'

  -- The units are stored under their numbers, which are between 1 and the greatest.
  abbrev IsIndexed : Node → Type 0
  IsIndexed n =
      (n.datastore_max + 1 < 2 ^ 63)
      × ((i : Int64) (u : DbUnit)
          → n.datastore i ≡ some u
          → (u.seq ≡ i) × (1 ≤ i) × (i ≤ n.datastore_max))

  db_unit-seq :
      (seq : Int64) (status : String) (client_seq : Int64) (e : Option TransactionLog)
      → (db_unit seq status client_seq e).seq ≡ seq
  unfolding db_unit
  db_unit-seq seq status client_seq none = refl
  db_unit-seq seq status client_seq (some e) = refl

  save-IsIndexed :
      (n : Node) (seq : Int64) (status : String) (client_seq : Int64)
      → 1 ≤ seq
      → seq + 1 < 2 ^ 63
      → IsIndexed n
      → IsIndexed (save_transaction_to_datastore seq status client_seq n)
  unfolding save_transaction_to_datastore
  save-IsIndexed n seq status client_seq low high (small, there) = (
    ground (arith, small),
    λ i u h. elim (Bool-cases (seq == i)) [
      | inl same ↦
          (let stored : db_unit seq status client_seq (n.transaction_log seq) ≡ u =
              some-injective _ _ (rw same at h) in
            let number =
              sym (ap (λ (v : DbUnit). v.seq) stored)
              ∙ db_unit-seq seq status client_seq (n.transaction_log seq) in
            ground (arith, small, number))
      | inr other ↦ ground (arith, there i u, rw other at h)
    ],
  )

  Filled-IsIndexed : (n : Node) → Filled n → IsIndexed n
  Filled-IsIndexed _ (empty n none_there zero_max) =
      (omega (arith, zero_max), λ i u h. absurd (cc (none_there i)))
  Filled-IsIndexed _ (saved n seq status client_seq low high before) =
      save-IsIndexed n seq status client_seq low high (Filled-IsIndexed n before)
  Filled-IsIndexed _ (elsewhere n n' same same_max before) =
      rw (same, same_max) (Filled-IsIndexed n before)

  collect_units-none :
      (k : ℕ) (i : Int64) (n : Node)
      → n.datastore i ≡ none
      → collect_units (suc k) i n ≡ collect_units k (add64 i 1) n
  unfolding collect_units
  collect_units-none k i n missing = rw (missing, collect_units) refl

  collect_units-some :
      (k : ℕ) (i : Int64) (n : Node) (u : DbUnit)
      → n.datastore i ≡ some u
      → collect_units (suc k) i n ≡ u ∷ collect_units k (add64 i 1) n
  unfolding collect_units
  collect_units-some k i n u found = rw (found, collect_units) refl

  collect_units-AscendingFrom :
      (k : ℕ) (i : Int64) (n : Node)
      → i + k < 2 ^ 63
      → IsIndexed n
      → AscendingFrom i (collect_units k i n)
  unfolding collect_units
  collect_units-AscendingFrom zero i n small known = tt
  collect_units-AscendingFrom (suc k) i n small known = elim (Option-cases (n.datastore i)) [
    | inl missing ↦ rw (collect_units-none k i n missing) (
        AscendingFrom-le i (add64 i 1) (collect_units k (add64 i 1) n) (omega (arith, small))
          (collect_units-AscendingFrom k (add64 i 1) n (omega (arith, small)) known))
    | inr (u, found) ↦
        (let number = (known.1 i u found).0 in
          let next : add64 i 1 ≡ u.seq + 1 = omega (arith, small, number) in
          rw (collect_units-some k i n u found) (
            omega (arith, number),
            rw (← next) (collect_units-AscendingFrom k (add64 i 1) n (omega (arith, small)) known),
          ))
  ]

  collect_units_there :
      (k : ℕ) (i : Int64) (n : Node) (u : DbUnit)
      → i + k < 2 ^ 63
      → IsIndexed n
      → IsListed u (collect_units k i n)
      → n.datastore u.seq ≡ some u
  unfolding collect_units
  collect_units_there zero i n u small known h = absurd h
  collect_units_there (suc k) i n u small known h = elim (Option-cases (n.datastore i)) [
    | inl missing ↦
        collect_units_there k (add64 i 1) n u (omega (arith, small)) known
          (rw (collect_units-none k i n missing) at h)
    | inr (v, found) ↦
        elim (IsListed-cons u v (collect_units k (add64 i 1) n)
          (rw (collect_units-some k i n v found) at h)) [
            | inl same ↦
                (let number = (known.1 i v found).0 in rw same (ap n.datastore number ∙ found))
            | inr later ↦ collect_units_there k (add64 i 1) n u (omega (arith, small)) known later
          ]
  ]

  collect_units-IsListed :
      (k : ℕ) (i j : Int64) (n : Node) (u : DbUnit)
      → i + k < 2 ^ 63
      → i ≤ j
      → j < i + k
      → n.datastore j ≡ some u
      → IsListed u (collect_units k i n)
  unfolding collect_units
  collect_units-IsListed zero i j n u small low high h = absurd (omega (arith, low, high))
  collect_units-IsListed (suc k) i j n u small low high h = elim (Option-cases (n.datastore i)) [
    | inl missing ↦ rw (collect_units-none k i n missing) (
        collect_units-IsListed k (add64 i 1) j n u (omega (arith, small))
          (next_le i j k low small (λ e. cc (rw e at missing, h))) (omega (arith, small, high)) h)
    | inr (v, found) ↦ elim (dec_lt i j) [
      | yes later ↦ rw (collect_units-some k i n v found) (
          inr (
            collect_units-IsListed k (add64 i 1) j n u (omega (arith, small))
              (omega (arith, small, later)) (omega (arith, small, high)) h))
      | no here ↦
          (let same : i ≡ j = omega (arith, low, here) in
            rw (collect_units-some k i n v found)
              (inl (some-injective _ _ (sym h ∙ ap n.datastore (sym same) ∙ found))))
    ]
  ]

  -- Where the datastore comes from an empty one by saves under positive numbers, the last of which leaves
  -- room for another, GetAllDatastore lists exactly the units that the map has, each under its own
  -- number, in the order of their numbers and each once.
  pub get_all_datastore_units :
      (n : Node)
      → Filled n
      → AscendingFrom 1 (get_all_datastore n)
        × ((u : DbUnit) → IsListed u (get_all_datastore n) → n.datastore u.seq ≡ some u)
        × ((i : Int64) (u : DbUnit) → n.datastore i ≡ some u → IsListed u (get_all_datastore n))
  unfolding get_all_datastore
  get_all_datastore_units n filled =
      let (small, known) = Filled-IsIndexed n filled in
      let rounds : bias n.datastore_max + 1 - bias 1 ≡ n.datastore_max = omega (arith, small) in
      let within : 1 + n.datastore_max < 2 ^ 63 = omega (arith, small) in
      rw rounds (
        collect_units-AscendingFrom n.datastore_max 1 n within (small, known),
        λ u h. collect_units_there n.datastore_max 1 n u within (small, known) h,
        λ i u h.
            collect_units-IsListed n.datastore_max 1 i n u within (known i u h).1
              (omega (arith, (known i u h).2)) h,
      )

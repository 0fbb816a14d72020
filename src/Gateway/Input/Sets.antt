-- ===== src/Gateway/Input/Sets.antt =====
-- Which transactions readCsv puts into which set.
use pbft_2pc.Prelude.{
  ap, sym, ◌∙◌, ℕ, ◌+◌, ◌%◌, ◌^◌, String, nat_eq, Int64, IsInt64, add64, max64, true, List, [], ◌∷◌,
  ◌++◌, length, append-snoc, append-nil, ◌==◌, if◌then◌else◌, Result, ok, err, panic, >>=-eq-ok,
  ok-injective, ◌≡◌, ◌⊎◌, refl, arith, Bool-cases, inl, inr,
}
use pbft_2pc.Messages.{Transaction}
use pbft_2pc.Strings.{trim_space, atoi}
use pbft_2pc.Gateway.Input.{
  Plan, index, empty_plan, start_set, read_transaction, add_transaction, read_row, read_rows,
  read_csv,
}
use pbft_2pc.Gateway.Input.Readable.{starts_set}

-- The largest set number after a record.
abbrev pub new_max : Int64 → List String → Int64
new_max m [] = m
new_max m (first ∷ rest) = if starts_set first then max64 (atoi (trim_space first)).0 m else m

abbrev values {ℓ} : {A : Type ℓ} → Result A → List A
values (ok a) = a ∷ []
values (err e) = []
values panic = []

-- The transactions of the records that come when `i` is the largest set number so far, in order.
abbrev pub planned : Int64 → Int64 → List (List String) → List Transaction
planned m i [] = []
planned m i (row ∷ rows) =
    let rest = planned (new_max m row) i rows in
    if new_max m row == i then values (read_transaction row) ++ rest else rest

start_set_effect :
    (clusters : List (String × List String)) (set : Int64) (row : List String) (p p' : Plan)
    → start_set clusters set row p ≡ ok p'
    → (p'.max_set_num ≡ max64 set p.max_set_num)
      × (p'.set_transactions_map ≡ p.set_transactions_map)
      × (p'.transaction_count_map ≡ p.transaction_count_map)
      × ((i : Int64)
          → (set ≡ i)
            ⊎ ((p'.live_servers_map i ≡ p.live_servers_map i)
                × (p'.byzantine_servers_map i ≡ p.byzantine_servers_map i)))
unfolding start_set
start_set_effect clusters set row p p' h =
    let (live, _, h1) = >>=-eq-ok (index row 2) _ h in
    let (byzantine, _, h2) = >>=-eq-ok (index row 4) _ h1 in
    let (contact, _, h3) = >>=-eq-ok (index row 3) _ h2 in
    rw (sym (ok-injective h3)) (
      refl,
      refl,
      refl,
      λ i. elim (Bool-cases (set == i)) [
        | inl same ↦ inl (ground (arith, same))
        | inr other ↦ inr (ground (arith, other), ground (arith, other))
      ],
    )

-- A record starts the set `i`.
abbrev pub StartsAt : List String → Int64 → Type 0
StartsAt [] i = ⊥
StartsAt (first ∷ rest) i = (starts_set first ≡ true) × ((atoi (trim_space first)).0 ≡ i)

start_effect :
    (clusters : List (String × List String)) (first : String) (rest : List String) (p p' : Plan)
    → (if starts_set first
        then start_set clusters (atoi (trim_space first)).0 (first ∷ rest) p
        else ok p)
      ≡ ok p'
    → (p'.max_set_num ≡ new_max p.max_set_num (first ∷ rest))
      × (p'.set_transactions_map ≡ p.set_transactions_map)
      × (p'.transaction_count_map ≡ p.transaction_count_map)
      × ((i : Int64)
          → StartsAt (first ∷ rest) i
            ⊎ ((p'.live_servers_map i ≡ p.live_servers_map i)
                × (p'.byzantine_servers_map i ≡ p.byzantine_servers_map i)))
start_effect clusters first rest p p' h = elim (Bool-cases (starts_set first)) [
  | inl new ↦
      (let (top, kept, counts, others) =
          start_set_effect clusters _ (first ∷ rest) p p' (rw new at h) in
        (
          rw new top,
          kept,
          counts,
          λ i. elim (others i) [ inl same ↦ inl (new, same) | inr both ↦ inr both ],
        ))
  | inr old ↦
      (let same = ok-injective (rw old at h) in
        rw (old, sym same) (refl, refl, refl, λ i. inr (refl, refl)))
]

eq_refl_nat : (i : ℕ) → (i == i) ≡ true
eq_refl_nat i = ground arith

add_transaction_effect :
    (t : Transaction) (p : Plan) (m : Int64) (ts : Int64 → List Transaction)
    (counts : Int64 → Int64)
    → p.max_set_num ≡ m
    → p.set_transactions_map ≡ ts
    → p.transaction_count_map ≡ counts
    → (i : Int64)
    → ((add_transaction t p).set_transactions_map i ≡ (if m == i then ts i ++ t ∷ [] else ts i))
      × ((add_transaction t p).transaction_count_map i
          ≡ (if m == i then add64 (counts i) 1 else counts i))
unfolding add_transaction
add_transaction_effect t p m ts counts top kept counted i = elim (Bool-cases (m == i)) [
  | inl here ↦
      (let same : m ≡ i = ground (arith, here) in
        rw (top, kept, counted, same) (rw (eq_refl_nat i) (refl, refl)))
  | inr other ↦ rw (top, kept, counted, other) (refl, refl)
]

-- What one record adds: a transaction, to the set with the largest number so far.
pub read_row_effect :
    (clusters : List (String × List String)) (row : List String) (p p' : Plan)
    → read_row clusters row p ≡ ok p'
    → (p'.max_set_num ≡ new_max p.max_set_num row)
      × ((t : Transaction) × (read_transaction row ≡ ok t)
          × ((i : Int64)
              → p'.set_transactions_map i ≡ (
                  if new_max p.max_set_num row == i
                  then p.set_transactions_map i ++ t ∷ []
                  else p.set_transactions_map i))
          × ((i : Int64)
              → p'.transaction_count_map i ≡ (
                  if new_max p.max_set_num row == i
                  then add64 (p.transaction_count_map i) 1
                  else p.transaction_count_map i)))
      × ((i : Int64)
          → StartsAt row i
            ⊎ ((p'.live_servers_map i ≡ p.live_servers_map i)
                × (p'.byzantine_servers_map i ≡ p.byzantine_servers_map i)))
unfolding read_row add_transaction
read_row_effect clusters [] p p' h = absurd (cc)
read_row_effect clusters (first ∷ rest) p p' h =
    let (p1, started, h1) = >>=-eq-ok _ _ h in
    let (top, kept, counts, others) = start_effect clusters first rest p p1 started in
    let (t, read, h2) = >>=-eq-ok (read_transaction (first ∷ rest)) _ h1 in
    rw (sym (ok-injective h2)) (
      top,
      (
        t,
        read,
        λ i. (add_transaction_effect t p1 _ _ _ top kept counts i).0,
        λ i. (add_transaction_effect t p1 _ _ _ top kept counts i).1,
      ),
      others,
    )

-- One more transaction for the set `i`, or for another.
one_more :
    (m i : Int64) (t : Transaction) (c c1 c' : Int64) (xs xs1 xs' ys : List Transaction)
    → IsInt64 c
    → xs1 ≡ (if m == i then xs ++ t ∷ [] else xs)
    → c1 ≡ (if m == i then add64 c 1 else c)
    → xs' ≡ xs1 ++ ys
    → c' ≡ (c1 + length ys) % 2 ^ 64
    → let zs = if m == i then t ∷ ys else ys in (xs' ≡ xs ++ zs) × (c' ≡ (c + length zs) % 2 ^ 64)
one_more m i t c c1 c' xs xs1 xs' ys small added counted later number = elim (Bool-cases (m == i)) [
  | inl here ↦ rw here (
    later ∙ ap (λ zs. zs ++ ys) (rw here at added) ∙ append-snoc xs t ys,
    omega (arith, rw here at counted, number),
  )
  | inr other ↦
      rw other (
        later ∙ ap (λ zs. zs ++ ys) (rw other at added),
        omega (arith, rw other at counted, number),
      )
]

small_count : (m i c c1 : Int64) → IsInt64 c → c1 ≡ (if m == i then add64 c 1 else c) → IsInt64 c1
small_count m i c c1 small counted = ground (arith, counted)

values-planned :
    (m i : Int64) (row : List String) (rows : List (List String)) (t : Transaction)
    → read_transaction row ≡ ok t
    → (if m == i then values (read_transaction row) ++ planned m i rows else planned m i rows)
      ≡ (if m == i then t ∷ planned m i rows else planned m i rows)
values-planned m i row rows t read = rw read refl

read_rows_sets :
    (clusters : List (String × List String)) (rows : List (List String)) (p p' : Plan) (i : Int64)
    → IsInt64 (p.transaction_count_map i)
    → read_rows clusters rows p ≡ ok p'
    → let ts = planned p.max_set_num i rows in
      (p'.set_transactions_map i ≡ p.set_transactions_map i ++ ts)
      × (p'.transaction_count_map i ≡ (p.transaction_count_map i + length ts) % 2 ^ 64)
unfolding read_rows
read_rows_sets clusters [] p p' i small h =
    rw (sym (ok-injective h)) (sym (append-nil _), omega (arith, small))
read_rows_sets clusters (row ∷ rows) p p' i small h =
    let (p1, first, rest) = >>=-eq-ok (read_row clusters row p) _ h in
    let (top, (t, read, added, counted), _) = read_row_effect clusters row p p1 first in
    let m = new_max p.max_set_num row in
    let small1 : IsInt64 (p1.transaction_count_map i) = small_count m i _ _ small (counted i) in
    let (ts, n) = read_rows_sets clusters rows p1 p' i small1 rest in
    let ys = planned m i rows in
    rw (values-planned m i row rows t read) (
      one_more m i t _ _ _ _ _ _ ys small (added i) (counted i) (ts ∙ rw top refl)
        (n ∙ rw top refl))

-- If readCsv returns a plan, the transactions of each set are those of the records that come when the
-- set's number is the largest that started a set so far, in their order (0 before the first set),
-- and the count of the set is the number of these transactions.
pub read_csv-planned :
    (clusters : List (String × List String)) (rows : List (List String)) (p : Plan) (i : Int64)
    → read_csv clusters rows ≡ ok p
    → (p.set_transactions_map i ≡ planned 0 i rows)
      × (p.transaction_count_map i ≡ length (planned 0 i rows) % 2 ^ 64)
unfolding read_csv empty_plan
read_csv-planned clusters rows p i h =
    let (ts, n) = read_rows_sets clusters rows empty_plan p i (ground arith) h in
    (ts, n ∙ omega arith)

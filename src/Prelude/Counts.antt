-- ===== src/Prelude/Counts.antt =====
-- Counting the elements of a list that pass a test: the arithmetic of quorums.
use Prim.Native.Nat.{ℕ, ◌+◌, ◌≤◌, ◌<◌}
use mathlib.Core.Path.{refl, sym, ◌≡◌}
use mathlib.Core.Logic.{inl, inr}
use mathlib.Core.Bool.{Bool, true, false, not, ◌&&◌, ◌||◌}
use mathlib.Core.List.{List, [], ◌∷◌, map}
use native.Mathlib.Omega.{arith}
use Prim.Native.String.{String}
use text.Mathlib.TextEquality.{eq_iff}
use text.Mathlib.TextPositions.{eq_refl}
use pbft_2pc.Prelude.Tests.{string_eq, Eq, ◌==◌, Bool-cases}
use pbft_2pc.Prelude.Lists.{length, select, All, contains}

module _ {ℓ} {A : Type ℓ} where
  abbrev pub count : (A → Bool) → List A → ℕ
  count p xs = length (select p xs)

  pub count-and :
      (p q : A → Bool) (xs : List A)
      → count p xs + count q xs ≤ length xs + count (λ x. p x && q x) xs
  count-and p q [] = ground arith
  count-and p q (x ∷ xs) = ground (arith, count-and p q xs)

  pub count-and-not :
      (p q : A → Bool) (xs : List A) → count p xs ≤ count q xs + count (λ x. p x && not (q x)) xs
  count-and-not p q [] = ground arith
  count-and-not p q (x ∷ xs) = ground (arith, count-and-not p q xs)

  -- What is counted at least once is there.
  pub count-positive : (p : A → Bool) (xs : List A) → 0 < count p xs → (x : A) × (p x ≡ true)
  count-positive p [] h = absurd (ground arith)
  count-positive p (x ∷ xs) h = elim (Bool-cases (p x)) [
    | inl here ↦ (x, here)
    | inr other ↦ count-positive p xs (ground arith)
  ]

  pub select-All : (p : A → Bool) (xs : List A) → All (λ x. p x ≡ true) (select p xs)
  select-All p [] = tt
  select-All p (x ∷ xs) = elim (Bool-cases (p x)) [
    | inl here ↦ rw here (here, select-All p xs)
    | inr other ↦ rw other (select-All p xs)
  ]

module _ {ℓ} {A : Type ℓ} ⦃e : Eq A⦄ where
  -- No element occurs twice.
  abbrev pub Distinct : List A → Type 0
  Distinct [] = Unit
  Distinct (x ∷ xs) = (contains xs x ≡ false) × Distinct xs

count-contains_refl {ℓ} :
    {A : Type ℓ} ⦃e : Eq A⦄ (x : A) (vs ms : List A)
    → count (contains vs) ms ≤ count (contains (x ∷ vs)) ms
count-contains_refl x vs [] = ground arith
count-contains_refl x vs (m ∷ ms) = ground (arith, count-contains_refl x vs ms)

count-contains-cons {ℓ} :
    {A : Type ℓ} ⦃e : Eq A⦄ (x : A) (vs ms : List A)
    → contains ms x ≡ true
    → contains vs x ≡ false
    → count (contains vs) ms < count (contains (x ∷ vs)) ms
count-contains-cons x vs [] member new = absurd (ground arith)
count-contains-cons ⦃e⦄ x vs (m ∷ ms) member new = elim (Bool-cases (x == m)) [
  | inl same ↦
      (let here = (e.beq_iff x m).0 same in
        ground (arith, rw here at new, (e.beq_iff m x).1 (sym here), count-contains_refl x vs ms))
  | inr other ↦ ground (arith, count-contains-cons x vs ms (ground arith) new)
]

-- Distinct elements of a list are at most as many as its elements that are among them.
pub length-count {ℓ} :
    {A : Type ℓ} ⦃e : Eq A⦄ (vs ms : List A)
    → Distinct vs
    → All (λ v. contains ms v ≡ true) vs
    → length vs ≤ count (contains vs) ms
length-count [] ms distinct members = ground arith
length-count (v ∷ vs) ms (new, distinct) (member, members) =
    ground (arith, length-count vs ms distinct members, count-contains-cons v vs ms member new)

-- An element of a list of images comes from an element of the list.
pub contains-map {ℓ κ μ} :
    {A : Type ℓ} {B : Type κ} ⦃e : Eq B⦄ (P : A → Type μ) (g : A → B) (xs : List A) (b : B)
    → contains (map g xs) b ≡ true
    → All P xs
    → (x : A) × (g x ≡ b) × P x
contains-map P g [] b h all = absurd (cc)
contains-map ⦃e⦄ P g (x ∷ xs) b h (here, later) = elim (Bool-cases (b == g x)) [
  | inl same ↦ (x, sym ((e.beq_iff b (g x)).0 same), here)
  | inr other ↦ contains-map P g xs b (rw other at h) later
]

-- Both of two predicates.
pub All-zip {ℓ κ μ} :
    {A : Type ℓ} (P : A → Type κ) (Q : A → Type μ) (xs : List A)
    → All P xs
    → All Q xs
    → All (λ x. P x × Q x) xs
All-zip P Q [] ps qs = tt
All-zip P Q (x ∷ xs) (p, ps) (q, qs) = ((p, q), All-zip P Q xs ps qs)

-- Two quorums of three distinct members of four have a member in common that passes the test, if at
-- most one member does not pass it.
pub quorums_meet {ℓ} :
    {A : Type ℓ} ⦃e : Eq A⦄ (bad : A → Bool) (ms vs ws : List A)
    → length ms ≤ 4
    → count bad ms ≤ 1
    → 3 ≤ length vs
    → 3 ≤ length ws
    → Distinct vs
    → Distinct ws
    → All (λ v. contains ms v ≡ true) vs
    → All (λ w. contains ms w ≡ true) ws
    → (m : A) × (contains vs m ≡ true) × (contains ws m ≡ true) × (bad m ≡ false)
quorums_meet {A = A} bad ms vs ws four one many many' distinct distinct' members members' =
    let both : A → Bool = λ m. contains vs m && contains ws m in
    let (m, found) =
      count-positive (λ m. both m && not (bad m)) ms
        (ground (
          arith,
          length-count vs ms distinct members,
          length-count ws ms distinct' members',
          count-and (contains vs) (contains ws) ms,
          count-and-not both bad ms,
        )) in
    (m, ground arith, ground arith, ground arith)

contains-select_here :
    (p : String → Bool) (y : String) (ys : List String)
    → contains (select p ys) y ≡ (contains ys y && p y)
    → contains (select p (y ∷ ys)) y ≡ ((y == y || contains ys y) && p y)
contains-select_here p y ys later = elim (Bool-cases (p y)) [
  | inl passes ↦ ground (arith, passes, eq_refl y)
  | inr fails ↦ ground (arith, fails, later)
]

pub contains-select :
    (p : String → Bool) (xs : List String) (x : String)
    → contains (select p xs) x ≡ (contains xs x && p x)
contains-select p [] x = refl
contains-select p (y ∷ ys) x = elim (Bool-cases (x == y)) [
  | inl same ↦
      (let e = (eq_iff x y).0 same in rw e (contains-select_here p y ys (contains-select p ys y)))
  | inr other ↦ ground (arith, other, contains-select p ys x)
]

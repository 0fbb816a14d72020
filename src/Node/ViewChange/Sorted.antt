-- ===== src/Node/ViewChange/Sorted.antt =====
-- sort.Slice on sequence numbers that are not negative.
use mathlib.Core.Option.{some-injective}
use pbft_2pc.Prelude.{
  sym, ◌∙◌, ℕ, ◌^◌, ◌≤◌, ◌<◌, nat_eq, le64, true, false, ◌||◌, some, List, [], ◌∷◌, ◌==◌, contains,
  last?, All, ◌≡◌, refl, arith, Bool-cases, inl, inr,
}
use pbft_2pc.Node.ViewChange.{insert_seq, sort_seqs}

-- An int64 that is not negative.
abbrev pub IsNonNegative : ℕ → Type 0
IsNonNegative a = a < 2 ^ 63

-- Each number is at most the later ones.
abbrev pub Ascending : List ℕ → Type 0
Ascending [] = Unit
Ascending (a ∷ as') = All (λ b. a ≤ b) as' × Ascending as'

le64-le : (a b : ℕ) → IsNonNegative a → IsNonNegative b → le64 a b ≡ true → a ≤ b
le64-le a b ha hb h = ground arith

le64-gt : (a b : ℕ) → IsNonNegative a → IsNonNegative b → le64 a b ≡ false → b ≤ a
le64-gt a b ha hb h = ground arith

contains-insert_seq :
    (a s : ℕ) (bs : List ℕ) → contains (insert_seq a bs) s ≡ (s == a || contains bs s)
unfolding insert_seq
contains-insert_seq a s [] = refl
contains-insert_seq a s (b ∷ bs) = ground (arith, contains-insert_seq a s bs)

pub contains-sort_seqs : (s : ℕ) (xs : List ℕ) → contains (sort_seqs xs) s ≡ contains xs s
unfolding sort_seqs
contains-sort_seqs s [] = refl
contains-sort_seqs s (a ∷ xs) =
    contains-insert_seq a s (sort_seqs xs) ∙ rw (contains-sort_seqs s xs) refl

insert_seq-All {κ} :
    (P : ℕ → Type κ) (a : ℕ) (bs : List ℕ) → P a → All P bs → All P (insert_seq a bs)
unfolding insert_seq
insert_seq-All P a [] p _ = (p, tt)
insert_seq-All P a (b ∷ bs) p (q, qs) = elim (Bool-cases (le64 a b)) [
  | inl le ↦ rw le (p, (q, qs))
  | inr gt ↦ rw gt (q, insert_seq-All P a bs p qs)
]

pub sort_seqs-All {κ} : (P : ℕ → Type κ) (xs : List ℕ) → All P xs → All P (sort_seqs xs)
unfolding sort_seqs
sort_seqs-All P [] _ = tt
sort_seqs-All P (a ∷ xs) (p, ps) = insert_seq-All P a (sort_seqs xs) p (sort_seqs-All P xs ps)

All-below : (a b : ℕ) (bs : List ℕ) → a ≤ b → All (λ c. b ≤ c) bs → All (λ c. a ≤ c) bs
All-below a b [] h _ = tt
All-below a b (c ∷ cs) h (p, ps) = (omega (arith, h, p), All-below a b cs h ps)

insert_seq-Ascending :
    (a : ℕ) (bs : List ℕ)
    → IsNonNegative a
    → All IsNonNegative bs
    → Ascending bs
    → Ascending (insert_seq a bs)
unfolding insert_seq
insert_seq-Ascending a [] ha _ _ = (tt, tt)
insert_seq-Ascending a (b ∷ bs) ha (hb, hbs) (below, rest) = elim (Bool-cases (le64 a b)) [
  | inl le ↦
      (let first = le64-le a b ha hb le in
        rw le ((first, All-below a b bs first below), (below, rest)))
  | inr gt ↦ rw gt (
    insert_seq-All (λ c. b ≤ c) a bs (le64-gt a b ha hb gt) below,
    insert_seq-Ascending a bs ha hbs rest,
  )
]

pub sort_seqs-Ascending : (xs : List ℕ) → All IsNonNegative xs → Ascending (sort_seqs xs)
unfolding sort_seqs
sort_seqs-Ascending [] _ = tt
sort_seqs-Ascending (a ∷ xs) (ha, hs) =
    insert_seq-Ascending a (sort_seqs xs) ha (sort_seqs-All IsNonNegative xs hs)
      (sort_seqs-Ascending xs hs)

contains-All {κ} : (P : ℕ → Type κ) (s : ℕ) (xs : List ℕ) → contains xs s ≡ true → All P xs → P s
contains-All P s [] h _ = absurd (cc)
contains-All P s (x ∷ xs) h (p, ps) = elim (Bool-cases (s == x)) [
  | inl same ↦ (let e : s ≡ x = ground (arith, same) in rw e p)
  | inr other ↦ contains-All P s xs (rw other at h) ps
]

-- The first number of an ascending list is at most each of its numbers, and the last at least.
pub Ascending-range :
    (a : ℕ) (as' : List ℕ) (s : ℕ)
    → Ascending (a ∷ as')
    → contains (a ∷ as') s ≡ true
    → (a ≤ s) × ((b : ℕ) × (last? (a ∷ as') ≡ some b) × (s ≤ b))
Ascending-range a [] s (below, rest) h =
    let e : s ≡ a = ground arith in (omega (arith, e), (a, refl, omega (arith, e)))
Ascending-range a (b ∷ bs) s ((first, below), rest) h = elim (Bool-cases (s == a)) [
  | inl same ↦
      (let e : s ≡ a = ground (arith, same) in
        let (_, (c, last, most)) = Ascending-range b bs b rest (ground arith) in
        (omega (arith, e), (c, last, omega (arith, e, first, most))))
  | inr other ↦
      (let (least, (c, last, most)) = Ascending-range b bs s rest (rw other at h) in
        (omega (arith, first, least), (c, last, most)))
]

pub last?-All {κ} : (P : ℕ → Type κ) (xs : List ℕ) (b : ℕ) → last? xs ≡ some b → All P xs → P b
last?-All P [] b h _ = absurd (cc)
last?-All P (x ∷ []) b h (p, _) = rw (sym (some-injective _ _ h)) p
last?-All P (x ∷ y ∷ ys) b h (_, ps) = last?-All P (y ∷ ys) b h ps

-- ===== src/Deps/Store.antt =====
-- A bucket of go.etcd.io/bbolt, and the behaviour that its documentation states. A key is read
-- as the text or the bytes that the program makes it from, and a value as the text it holds.
-- That the disk fails is not modelled.
use pbft_2pc.Prelude.{
  Bool-cases, inl, inr, arith, ℕ, String, ◌≡◌, Bool, true, false, Option, none, some, List,
  if◌then◌else◌, Eq, ◌==◌,
}

pub record Bolt : Type 1 where
  pub Bucket : Type 0 → Type 0
  pub new_bucket : {K : Type 0} ⦃e : Eq K⦄ → Bucket K
  -- `Put` refuses a blank key and one that is too long.
  pub accepts : {K : Type 0} ⦃e : Eq K⦄ → K → Bool
  pub get : {K : Type 0} ⦃e : Eq K⦄ → K → Bucket K → Option String
  pub put : {K : Type 0} ⦃e : Eq K⦄ → K → String → Bucket K → Option (Bucket K)
  pub delete : {K : Type 0} ⦃e : Eq K⦄ → K → Bucket K → Bucket K
  pub next_sequence : {K : Type 0} ⦃e : Eq K⦄ → Bucket K → ℕ × Bucket K
  -- The pairs that a cursor visits, in the order of the keys.
  pub entries : {K : Type 0} ⦃e : Eq K⦄ → Bucket K → List (K × String)
  pub get-new : {K : Type 0} ⦃e : Eq K⦄ (k : K) → get k new_bucket ≡ none
  pub get-accepts :
      {K : Type 0} ⦃e : Eq K⦄ (k : K) (v : String) (b : Bucket K)
      → get k b ≡ some v
      → accepts k ≡ true
  pub put-refused :
      {K : Type 0} ⦃e : Eq K⦄ (k : K) (v : String) (b : Bucket K)
      → accepts k ≡ false
      → put k v b ≡ none
  pub put-accepted :
      {K : Type 0} ⦃e : Eq K⦄ (k : K) (v : String) (b : Bucket K)
      → accepts k ≡ true
      → (b' : Bucket K) × (put k v b ≡ some b')
        × ((j : K) → get j b' ≡ (if k == j then some v else get j b))
  pub get-delete :
      {K : Type 0} ⦃e : Eq K⦄ (k j : K) (b : Bucket K)
      → get j (delete k b) ≡ (if k == j then none else get j b)

module _ ⦃bolt : Bolt⦄ {K : Type 0} ⦃e : Eq K⦄ where
  -- What a bucket holds after a `Put` that succeeded.
  pub get-put :
      (k j : K) (v : String) (b b' : bolt.Bucket K)
      → bolt.put k v b ≡ some b'
      → bolt.get j b' ≡ (if k == j then some v else bolt.get j b)
  get-put k j v b b' h = elim (Bool-cases (bolt.accepts k)) [
    | inl good ↦ let (b'', p, reads) = bolt.put-accepted k v b good in ground (arith, reads j, p)
    | inr bad ↦ ground (arith, bolt.put-refused k v b bad)
  ]

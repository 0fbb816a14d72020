-- ===== src/Instances/ListBolt.antt =====
-- A bucket as a list of pairs and a counter. Every key is accepted.
use pbft_2pc.Prelude.{
  ℕ, String, ◌+◌, ◌≡◌, refl, true, false, Option, none, some, List, [], ◌∷◌, if◌then◌else◌, Eq,
  ◌==◌, arith,
}
use pbft_2pc.Deps.{Bolt}

pub record Pairs (K : Type 0) : Type 0 where
  pub pairs : List (K × String)
  pub counter : ℕ

module _ {K : Type 0} ⦃e : Eq K⦄ where
  abbrev find : K → List (K × String) → Option String
  find k [] = none
  find k (p ∷ ps) = if p.0 == k then some p.1 else find k ps

  abbrev remove : K → List (K × String) → List (K × String)
  remove k [] = []
  remove k (p ∷ ps) = if p.0 == k then remove k ps else p ∷ remove k ps

  abbrev pub lookup_pair : K → Pairs K → Option String
  lookup_pair k b = find k b.pairs

  abbrev pub put_front : K → String → Pairs K → Option (Pairs K)
  put_front k v b = some (record b { pairs = (k, v) ∷ b.pairs })

  abbrev pub delete_pair : K → Pairs K → Pairs K
  delete_pair k b = record b { pairs = remove k b.pairs }

  find-remove :
      (k j : K) (ps : List (K × String))
      → find j (remove k ps) ≡ (if k == j then none else find j ps)
  find-remove k j [] = ground arith
  find-remove k j (p ∷ ps) =
      ground (arith, find-remove k j ps, e.beq_iff p.0 k, e.beq_iff p.0 j, e.beq_iff k j)

  pub lookup_pair-delete_pair :
      (k j : K) (b : Pairs K)
      → lookup_pair j (delete_pair k b) ≡ (if k == j then none else lookup_pair j b)
  lookup_pair-delete_pair k j b = find-remove k j b.pairs

pub never_refused {ℓ} : {A : Type ℓ} → true ≡ false → A
never_refused h = absurd (cc)

instance abbrev pub list_bolt : Bolt
list_bolt = record {
  Bucket = Pairs;
  new_bucket = record { pairs = []; counter = 0 };
  accepts = λ _. true;
  get = lookup_pair;
  put = put_front;
  delete = delete_pair;
  next_sequence = λ b. (b.counter + 1, record b { counter = b.counter + 1 });
  entries = λ b. b.pairs;
  get-new = λ k. refl;
  get-accepts = λ k v b h. refl;
  put-refused = λ k v b h. never_refused h;
  put-accepted = λ k v b h. (record b { pairs = (k, v) ∷ b.pairs }, refl, λ j. refl);
  get-delete = lookup_pair-delete_pair;
}

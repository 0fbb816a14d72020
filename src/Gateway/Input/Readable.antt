-- ===== src/Gateway/Input/Readable.antt =====
-- Which records readCsv gets through without a panic.
use pbft_2pc.Prelude.{
  ℕ, zero, suc, String, Bool, true, false, ◌&&◌, List, [], ◌∷◌, length, leb, if◌then◌else◌, Result,
  ok, err, panic, is_ok, ◌>>=◌, ◌≡◌, refl, arith, Bool-cases, Result-split, ap, sym, ◌⊎◌, ◌∙◌, inl,
  inr, Int64,
}
use pbft_2pc.Messages.{Transaction}
use pbft_2pc.Strings.{split, trim, trim_space, atoi}
use pbft_2pc.Gateway.Input.{
  Plan, index, empty_plan, start_set, read_transaction, add_transaction, read_row, read_rows,
  read_csv,
}

-- Does a first field start a set?
abbrev pub starts_set : String → Bool
starts_set first = (atoi (trim_space first)).1

-- A record that starts a set has five fields, another one has two, and the second field has two commas.
abbrev pub is_readable : List String → Bool
is_readable [] = false
is_readable (first ∷ []) = false
is_readable (first ∷ text ∷ rest) =
    (if starts_set first then leb 3 (length rest) else true)
    && leb 3 (length (split "," (trim text "()")))

abbrev pub are_readable : List (List String) → Bool
are_readable [] = true
are_readable (row ∷ rows) = is_readable row && are_readable rows

is_ok->>= {ℓ κ} :
    {A : Type ℓ} {B : Type κ} (r : Result A) (k : A → Result B) (b : Bool)
    → ((a : A) → is_ok (k a) ≡ b)
    → is_ok (r >>= k) ≡ (is_ok r && b)
is_ok->>= (ok a) k b h = ground (arith, h a)
is_ok->>= (err e) k b h = refl
is_ok->>= panic k b h = refl

start_set-is_ok :
    (clusters : List (String × List String)) (set : Int64) (first text : String)
    (rest : List String) (p : Plan)
    → is_ok (start_set clusters set (first ∷ text ∷ rest) p) ≡ leb 3 (length rest)
unfolding start_set
start_set-is_ok clusters set first text [] p = refl
start_set-is_ok clusters set first text (a ∷ []) p = refl
start_set-is_ok clusters set first text (a ∷ b ∷ []) p = refl
start_set-is_ok clusters set first text (a ∷ b ∷ c ∷ rest) p = ground arith

read_transaction-is_ok :
    (first text : String) (rest : List String)
    → is_ok (read_transaction (first ∷ text ∷ rest)) ≡ leb 3 (length (split "," (trim text "()")))
unfolding read_transaction
read_transaction-is_ok first text rest = go (split "," (trim text "()"))
  where
    go :
        (parts : List String)
        → is_ok {A = Transaction} (do
          from ← index parts 0
          to ← index parts 1
          amount ← index parts 2
          ok (record {
            from = trim_space from;
            to = trim_space to;
            amount = (atoi (trim_space amount)).0;
            cluster_from = "";
            cluster_to = "";
            client_seq = 0;
          }))
          ≡ leb 3 (length parts)
    go [] = refl
    go (a ∷ []) = refl
    go (a ∷ b ∷ []) = refl
    go (a ∷ b ∷ c ∷ parts) = ground arith

read_row-is_ok :
    (clusters : List (String × List String)) (row : List String) (p : Plan)
    → is_ok (read_row clusters row p) ≡ is_readable row
unfolding read_row start_set read_transaction
read_row-is_ok clusters [] p = refl
read_row-is_ok clusters (first ∷ []) p = elim (Bool-cases (starts_set first)) [
  | inl new ↦ rw new refl
  | inr old ↦ rw old refl
]
read_row-is_ok clusters (first ∷ text ∷ rest) p =
    let row = first ∷ text ∷ rest in
    let commas = leb 3 (length (split "," (trim text "()"))) in
    let ends : (p' : Plan)
        → is_ok (read_transaction row >>= λ t. ok (add_transaction t p')) ≡ commas =
      λ p'.
        is_ok->>= (read_transaction row) (λ t. ok (add_transaction t p')) true (λ t. refl)
        ∙ ground (arith, read_transaction-is_ok first text rest) in
    elim (Bool-cases (starts_set first)) [
      | inl new ↦ rw new (
          is_ok->>= (start_set clusters (atoi (trim_space first)).0 row p) _ commas ends
          ∙ rw (start_set-is_ok clusters (atoi (trim_space first)).0 first text rest p) refl)
      | inr old ↦ rw old (ends p)
    ]

-- The loop over the records.
read_rows-is_ok :
    (clusters : List (String × List String)) (rows : List (List String)) (p : Plan)
    → is_ok (read_rows clusters rows p) ≡ are_readable rows
unfolding read_rows
read_rows-is_ok clusters [] p = refl
read_rows-is_ok clusters (row ∷ rows) p =
    is_ok->>= (read_row clusters row p) (λ p'. read_rows clusters rows p') (are_readable rows)
      (λ p'. read_rows-is_ok clusters rows p')
    ∙ rw (read_row-is_ok clusters row p) refl

-- Nothing here returns an error: what fails is an index out of range.
abbrev IsNoError {ℓ} : {A : Type ℓ} → Result A → Type 0
IsNoError (ok a) = Unit
IsNoError (err e) = ⊥
IsNoError panic = Unit

IsNoError->>= {ℓ κ} :
    {A : Type ℓ} {B : Type κ} (r : Result A) (k : A → Result B)
    → IsNoError r
    → ((a : A) → IsNoError (k a))
    → IsNoError (r >>= k)
IsNoError->>= (ok a) k h next = next a
IsNoError->>= (err e) k h next = absurd h
IsNoError->>= panic k h next = tt

index-IsNoError {ℓ} : {A : Type ℓ} (xs : List A) (i : ℕ) → IsNoError (index xs i)
index-IsNoError [] i = tt
index-IsNoError (x ∷ xs) zero = tt
index-IsNoError (x ∷ xs) (suc i) = index-IsNoError xs i

-- Three indices in a row.
index_thrice-IsNoError {ℓ κ μ ν} :
    {A : Type ℓ} {B : Type κ} {C : Type μ} {D : Type ν} (xs : List A) (ys : List B) (zs : List C)
    (i j k : ℕ) (f : A → B → C → D)
    → IsNoError (index xs i >>= λ a. index ys j >>= λ b. index zs k >>= λ c. ok (f a b c))
index_thrice-IsNoError xs ys zs i j k f = IsNoError->>= (index xs i) _ (index-IsNoError xs i) (λ a.
    IsNoError->>= (index ys j) _ (index-IsNoError ys j)
      (λ b. IsNoError->>= (index zs k) _ (index-IsNoError zs k) (λ c. tt)))

read_row-IsNoError :
    (clusters : List (String × List String)) (row : List String) (p : Plan)
    → IsNoError (read_row clusters row p)
unfolding read_row start_set read_transaction
read_row-IsNoError clusters row p = IsNoError->>= (index row 0) _ (index-IsNoError row 0) (λ first.
    IsNoError->>=
      (if starts_set first then start_set clusters (atoi (trim_space first)).0 row p else ok p) _
      (elim (Bool-cases (starts_set first)) [
        | inl new ↦ rw new (index_thrice-IsNoError row row row 2 4 3 _)
        | inr old ↦ rw old tt
      ])
      (λ p'.
        IsNoError->>= (read_transaction row) _
          (IsNoError->>= (index row 1) _ (index-IsNoError row 1) (λ text.
            let parts = split "," (trim text "()") in
            index_thrice-IsNoError parts parts parts 0 1 2 _))
          (λ t. tt)))

read_rows-IsNoError :
    (clusters : List (String × List String)) (rows : List (List String)) (p : Plan)
    → IsNoError (read_rows clusters rows p)
unfolding read_rows
read_rows-IsNoError clusters [] p = tt
read_rows-IsNoError clusters (row ∷ rows) p =
    IsNoError->>= (read_row clusters row p) _ (read_row-IsNoError clusters row p)
      (λ p'. read_rows-IsNoError clusters rows p')

-- readCsv returns a plan if each record is readable, that is if it has a second field with two commas
-- or more, and five fields if its first field is a number. If a record is not, the process ends with
-- an index out of range; there is no error that is returned.
pub read_csv-outcome :
    (clusters : List (String × List String)) (rows : List (List String))
    → ((are_readable rows ≡ true) × (p : Plan) × (read_csv clusters rows ≡ ok p))
      ⊎ ((are_readable rows ≡ false) × (read_csv clusters rows ≡ panic))
unfolding read_csv
read_csv-outcome clusters rows =
    let good = read_rows-is_ok clusters rows empty_plan in
    elim (Result-split (read_rows clusters rows empty_plan)) [
      | inl (p, e) ↦ inl (sym good ∙ ap is_ok e, p, e)
      | inr (inl (text, e)) ↦ absurd (rw e at (read_rows-IsNoError clusters rows empty_plan))
      | inr (inr e) ↦ inr (sym good ∙ ap is_ok e, e)
    ]

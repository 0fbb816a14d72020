-- ===== src/Collect/Certificates.antt =====
-- What the collecting loops return, and when they end.
use mathlib.Core.Option.{some-injective}
use pbft_2pc.Prelude.{
  append-snoc, append-nil, ap, sym, zero, suc, ◌∙◌, ℕ, nat_eq, ◌+◌, ◌≤◌, ◌≡◌, refl, Bool, true,
  false, some, List, [], ◌∷◌, ◌++◌, length, length-append, ◌==◌, Bool-cases, inl, inr, arith, ◌⊎◌,
}
use pbft_2pc.Collect.{Arrival, cert, main_timer, majority_timer, collect, collect_rest}

append_assoc {κ} : {B : Type κ} (xs ys zs : List B) → (xs ++ ys) ++ zs ≡ xs ++ (ys ++ zs)
append_assoc [] ys zs = refl
append_assoc (x ∷ xs) ys zs = ap (λ ws. x ∷ ws) (append_assoc xs ys zs)

module _ {ℓ} {A : Type ℓ} where
  -- Certificates that arrive before the first event of another kind.
  abbrev pub arrived : List A → List (Arrival A)
  arrived [] = []
  arrived (c ∷ cs) = cert c ∷ arrived cs

  -- The certificates among the events.
  abbrev pub certs_of : List (Arrival A) → List A
  certs_of [] = []
  certs_of (cert c ∷ es) = c ∷ certs_of es
  certs_of (main_timer ∷ es) = certs_of es
  certs_of (majority_timer ∷ es) = certs_of es

  -- A result continues the certificates read before by a first part of those that arrive.
  abbrev pub Continues : List A → List A → List A → Type ℓ
  Continues certs more r = (xs : List A) × (ys : List A) × (more ≡ xs ++ ys) × (r ≡ certs ++ xs)

  Continues-cert :
      (certs : List A) (c : A) (more : List A) (r : List A)
      → Continues (certs ++ c ∷ []) more r
      → Continues certs (c ∷ more) r
  Continues-cert certs c more r (xs, ys, split, whole) =
      (c ∷ xs, ys, ap (λ zs. c ∷ zs) split, whole ∙ append-snoc certs c xs)

  Continues-now : (certs more r : List A) → some certs ≡ some r → Continues certs more r
  Continues-now certs more r h =
      ([], more, refl, sym (some-injective _ _ h) ∙ sym (append-nil certs))

  collect_rest-Continues :
      (certs : List A) (es : List (Arrival A)) (r : List A)
      → collect_rest certs es ≡ some r
      → Continues certs (certs_of es) r
  unfolding collect_rest
  collect_rest-Continues certs [] r h = absurd (cc)
  collect_rest-Continues certs (cert c ∷ es) r h =
      Continues-cert certs c _ r (collect_rest-Continues (certs ++ c ∷ []) es r h)
  collect_rest-Continues certs (main_timer ∷ es) r h = collect_rest-Continues certs es r h
  collect_rest-Continues certs (majority_timer ∷ es) r h = Continues-now certs _ r h

  length-Continues : (certs more r : List A) → Continues certs more r → length certs ≤ length r
  length-Continues certs more r (xs, ys, split, whole) =
      omega (arith, ap length whole, length-append certs xs)

  -- Did the main timer expire before that many certificates had come?
  abbrev pub expires_within : ℕ → List (Arrival A) → Bool
  expires_within k [] = false
  expires_within zero (e ∷ es) = false
  expires_within (suc k) (cert c ∷ es) = expires_within k es
  expires_within (suc k) (main_timer ∷ es) = true
  expires_within (suc k) (majority_timer ∷ es) = expires_within (suc k) es

  -- What the loops have returned: a first part of the certificates that came, which is a quorum unless
  -- the main timer expired too early.
  abbrev pub Collected : ℕ → List A → List (Arrival A) → List A → Type ℓ
  Collected missing certs es r =
      Continues certs (certs_of es) r
      × ((missing + length certs ≤ length r) ⊎ (expires_within missing es ≡ true))

  collect-Collected :
      (missing : ℕ) (certs : List A) (es : List (Arrival A)) (r : List A)
      → collect (suc missing + length certs) certs es ≡ some r
      → Collected (suc missing) certs es r
  unfolding collect
  collect-Collected missing certs [] r h = absurd (cc)
  collect-Collected zero certs (cert c ∷ es) r h =
      let h' : collect_rest (certs ++ c ∷ []) es ≡ some r =
        ground (arith, h, length-append certs (c ∷ [])) in
      let went_on = collect_rest-Continues (certs ++ c ∷ []) es r h' in
      (
        Continues-cert certs c _ r went_on,
        inl (ground (arith, length-Continues _ _ r went_on, length-append certs (c ∷ []))),
      )
  collect-Collected (suc k) certs (cert c ∷ es) r h =
      let size = length-append certs (c ∷ []) in
      let h' : collect (suc k + length (certs ++ c ∷ [])) (certs ++ c ∷ []) es ≡ some r =
        ground (arith, h, size) in
      let (went_on, why) = collect-Collected k (certs ++ c ∷ []) es r h' in
      (
        Continues-cert certs c _ r went_on,
        elim why [ inl enough ↦ inl (ground (arith, size)) | inr early ↦ inr early ],
      )
  collect-Collected missing certs (main_timer ∷ es) r h = (Continues-now certs _ r h, inr refl)
  collect-Collected missing certs (majority_timer ∷ es) r h = collect-Collected missing certs es r h

  -- If a collecting loop for a quorum of at least one returns, it returns a first part of the
  -- certificates that came, in the order in which they came: at least a quorum of them, unless the main
  -- timer expired before a quorum had come.
  pub collect-first_part :
      (missing : ℕ) (es : List (Arrival A)) (r : List A)
      → collect (suc missing) [] es ≡ some r
      → Collected (suc missing) [] es r
  collect-first_part missing es r h = collect-Collected missing [] es r (ground (arith, h))

  collect_rest_ends :
      (certs : List A) (es later : List (Arrival A))
      → (r : List A) × (collect_rest certs (es ++ majority_timer ∷ later) ≡ some r)
  unfolding collect_rest
  collect_rest_ends certs [] later = (certs, refl)
  collect_rest_ends certs (cert c ∷ es) later = collect_rest_ends (certs ++ c ∷ []) es later
  collect_rest_ends certs (main_timer ∷ es) later = collect_rest_ends certs es later
  collect_rest_ends certs (majority_timer ∷ es) later = (certs, refl)

  -- A collecting loop returns once the main timer has expired and, later, the majority timer that runs
  -- if a quorum came first: it cannot wait for ever, whatever comes besides.
  pub collect_ends :
      (quorum : ℕ) (certs : List A) (es es' later : List (Arrival A))
      → (r : List A) × (collect quorum certs (es ++ main_timer ∷ (es' ++ majority_timer ∷ later))
          ≡ some r)
  unfolding collect
  collect_ends quorum certs [] es' later = (certs, refl)
  collect_ends quorum certs (cert c ∷ es) es' later =
      let rest = collect_ends quorum (certs ++ c ∷ []) es es' later in
      let (r, e) = collect_rest_ends (certs ++ c ∷ []) (es ++ main_timer ∷ es') later in
      elim (Bool-cases (length (certs ++ c ∷ []) == quorum)) [
        | inl full ↦ (
          r,
          rw (full, collect)
              (ap (collect_rest (certs ++ c ∷ []))
                  (sym (append_assoc es (main_timer ∷ es') (majority_timer ∷ later)))
                ∙ e),
        )
        | inr short ↦ rw (short, collect) rest
      ]
  collect_ends quorum certs (main_timer ∷ es) es' later = (certs, refl)
  collect_ends quorum certs (majority_timer ∷ es) es' later = collect_ends quorum certs es es' later

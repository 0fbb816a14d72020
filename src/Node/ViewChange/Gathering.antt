-- ===== src/Node/ViewChange/Gathering.antt =====
-- What sendNewView gathers from the view change messages.
use pbft_2pc.Prelude.{
  ap, sym, ◌∙◌, ℕ, String, nat_eq, Int64, true, none, some, List, [], ◌∷◌, ◌++◌, contains, assign,
  Table, All, ◌==◌, ◌||◌, ok, ◌≡◌, ◌⊎◌, refl, inl, inr, arith, Bool-cases, Option-cases, >>=-eq-ok,
  ok-injective,
}
use pbft_2pc.Messages.{PrePrepareRequest, PreparedMessages, SignedViewChangeRequest}
use pbft_2pc.Node.ViewChange.{Gathered, gather_one, gather, gather_all}
use pbft_2pc.Node.ViewChange.Sorted.{IsNonNegative}

-- An element of a list.
abbrev pub IsIn : {A : Type 0} → A → List A → Type 0
IsIn x [] = ⊥
IsIn x (y ∷ ys) = (x ≡ y) ⊎ IsIn x ys

-- The requests that messages report.
abbrev pub reported_by : List PreparedMessages → List PrePrepareRequest
reported_by [] = []
reported_by (p ∷ ps) = elim p.pre_prepare [ none ↦ reported_by ps | some q ↦ q ∷ reported_by ps ]

abbrev pub reported : List SignedViewChangeRequest → List PrePrepareRequest
reported [] = []
reported (c ∷ cs) = reported_by c.view_change_request.prepared ++ reported cs

abbrev pub gather_list : List PrePrepareRequest → Gathered → Gathered
gather_list [] g = g
gather_list (p ∷ ps) g = gather_list ps (gather_one p g)

gather_list-append :
    (ps qs : List PrePrepareRequest) (g : Gathered)
    → gather_list (ps ++ qs) g ≡ gather_list qs (gather_list ps g)
gather_list-append [] qs g = refl
gather_list-append (p ∷ ps) qs g = gather_list-append ps qs (gather_one p g)

gather-eq :
    (ps : List PreparedMessages) (g g' : Gathered)
    → gather ps g ≡ ok g'
    → g' ≡ gather_list (reported_by ps) g
unfolding gather
gather-eq [] g g' h = sym (ok-injective h)
gather-eq (p ∷ ps) g g' h = elim (Option-cases p.pre_prepare) [
  | inl missing ↦ (let h' = rw missing at h in absurd (cc))
  | inr (q, there) ↦ rw there (gather-eq ps (gather_one q g) g' (rw there at h))
]

pub gather_all-eq :
    (cs : List SignedViewChangeRequest) (g g' : Gathered)
    → gather_all cs g ≡ ok g'
    → g' ≡ gather_list (reported cs) g
unfolding gather_all
gather_all-eq [] g g' h = sym (ok-injective h)
gather_all-eq (c ∷ cs) g g' h =
    let ps = c.view_change_request.prepared in
    let (g1, first, rest) = >>=-eq-ok (gather ps g) _ h in
    gather_all-eq cs g1 g' rest
    ∙ ap (gather_list (reported cs)) (gather-eq ps g g1 first)
    ∙ sym (gather_list-append (reported_by ps) (reported cs) g)

-- The digests of the requests are those of a function of their numbers, which are not negative.
abbrev pub IsAgreed : (Int64 → String) → PrePrepareRequest → Type 0
IsAgreed digest_of p =
    (p.pre_prepare.digest ≡ digest_of p.pre_prepare.sequence) × IsNonNegative p.pre_prepare.sequence

-- What is gathered for a number, if anything is, is listed and has the digest of the number.
abbrev pub IsGathered : (Int64 → String) → Int64 → Gathered → Type 0
IsGathered digest_of s (m, seqs) =
    (m s ≡ none)
    ⊎ ((q : PrePrepareRequest) × (m s ≡ some q)
        × (q.pre_prepare.digest ≡ digest_of s)
        × (contains seqs s ≡ true))

contains-snoc : (xs : List ℕ) (a s : ℕ) → contains (xs ++ a ∷ []) s ≡ (contains xs s || s == a)
contains-snoc [] a s = ground arith
contains-snoc (x ∷ xs) a s = ground (arith, contains-snoc xs a s)

All-snoc :
    (xs : List ℕ) (a : ℕ)
    → All IsNonNegative xs
    → IsNonNegative a
    → All IsNonNegative (xs ++ a ∷ [])
All-snoc [] a _ small = (small, tt)
All-snoc (x ∷ xs) a (here, later) small = (here, All-snoc xs a later small)

gather_one-known :
    (p q : PrePrepareRequest) (m : Table Int64 PrePrepareRequest) (seqs : List Int64)
    → m p.pre_prepare.sequence ≡ some q
    → gather_one p (m, seqs) ≡ (m, seqs)
unfolding gather_one
gather_one-known p q m seqs there = rw (there, gather_one) refl

gather_one-new :
    (p : PrePrepareRequest) (m : Table Int64 PrePrepareRequest) (seqs : List Int64)
    → m p.pre_prepare.sequence ≡ none
    → let i = p.pre_prepare.sequence in
      gather_one p (m, seqs) ≡ (assign i (some p) m, seqs ++ i ∷ [])
unfolding gather_one
gather_one-new p m seqs missing = rw (missing, gather_one) refl

gather_one-IsGathered :
    (digest_of : Int64 → String) (s : Int64) (p : PrePrepareRequest) (g : Gathered)
    → IsAgreed digest_of p
    → IsGathered digest_of s g
    → IsGathered digest_of s (gather_one p g)
gather_one-IsGathered digest_of s p (m, seqs) (agreed, _) known =
    let i = p.pre_prepare.sequence in
    elim (Option-cases (m i)) [
      | inr (q, there) ↦ rw (gather_one-known p q m seqs there) known
      | inl missing ↦ rw (gather_one-new p m seqs missing) (elim (Bool-cases (i == s)) [
        | inl same ↦
            (let e : i ≡ s = ground (arith, same) in
              rw same
                (inr (p, refl, agreed ∙ ap digest_of e, ground (arith, contains-snoc seqs i s, e))))
        | inr other ↦ rw other (elim known [
          | inl nothing ↦ inl nothing
          | inr (q, there, digest, member) ↦
              inr (q, there, digest, ground (arith, contains-snoc seqs i s, member))
        ])
      ])
    ]

-- Once something is gathered for a number, it stays, and a request that is gathered is there.
gather_one-stays :
    (s : Int64) (p q : PrePrepareRequest) (g : Gathered)
    → g.0 s ≡ some q
    → (gather_one p g).0 s ≡ some q
gather_one-stays s p q (m, seqs) there = elim (Option-cases (m p.pre_prepare.sequence)) [
  | inr (r, known) ↦ rw (gather_one-known p r m seqs known) there
  | inl missing ↦
      rw (gather_one-new p m seqs missing) (elim (Bool-cases (p.pre_prepare.sequence == s)) [
        | inl same ↦
            (let e : p.pre_prepare.sequence ≡ s = ground (arith, same) in
              let missing' = rw e at missing in absurd (cc))
        | inr other ↦ rw other there
      ])
]

gather_one-there :
    (p : PrePrepareRequest) (g : Gathered)
    → (q : PrePrepareRequest) × ((gather_one p g).0 p.pre_prepare.sequence ≡ some q)
gather_one-there p (m, seqs) = elim (Option-cases (m p.pre_prepare.sequence)) [
  | inr (r, known) ↦ (r, rw (gather_one-known p r m seqs known) known)
  | inl missing ↦ (p, rw (gather_one-new p m seqs missing) (ground arith))
]

pub gather_list-IsGathered :
    (digest_of : Int64 → String) (s : Int64) (ps : List PrePrepareRequest) (g : Gathered)
    → All (IsAgreed digest_of) ps
    → IsGathered digest_of s g
    → IsGathered digest_of s (gather_list ps g)
gather_list-IsGathered digest_of s [] g _ known = known
gather_list-IsGathered digest_of s (p ∷ ps) g (agreed, rest) known =
    gather_list-IsGathered digest_of s ps (gather_one p g) rest
      (gather_one-IsGathered digest_of s p g agreed known)

gather_list-stays :
    (s : Int64) (ps : List PrePrepareRequest) (q : PrePrepareRequest) (g : Gathered)
    → g.0 s ≡ some q
    → (gather_list ps g).0 s ≡ some q
gather_list-stays s [] q g there = there
gather_list-stays s (p ∷ ps) q g there =
    gather_list-stays s ps q (gather_one p g) (gather_one-stays s p q g there)

pub gather_list-there :
    (p : PrePrepareRequest) (ps : List PrePrepareRequest) (g : Gathered)
    → IsIn p ps
    → (q : PrePrepareRequest) × ((gather_list ps g).0 p.pre_prepare.sequence ≡ some q)
gather_list-there p [] g member = absurd member
gather_list-there p (r ∷ ps) g (inl same) =
    let (q, there) = gather_one-there r g in
    let i = r.pre_prepare.sequence in (q, rw same (gather_list-stays i ps q (gather_one r g) there))
gather_list-there p (r ∷ ps) g (inr member) = gather_list-there p ps (gather_one r g) member

-- The numbers that are listed are numbers of requests, and so not negative.
gather_one-IsNonNegative :
    (p : PrePrepareRequest) (g : Gathered)
    → IsNonNegative p.pre_prepare.sequence
    → All IsNonNegative g.1
    → All IsNonNegative (gather_one p g).1
gather_one-IsNonNegative p (m, seqs) small smalls = elim (Option-cases (m p.pre_prepare.sequence)) [
  | inr (r, known) ↦ rw (gather_one-known p r m seqs known) smalls
  | inl missing ↦
      rw (gather_one-new p m seqs missing) (All-snoc seqs p.pre_prepare.sequence smalls small)
]

-- A request with a number that is not negative.
abbrev pub IsNumbered : PrePrepareRequest → Type 0
IsNumbered p = IsNonNegative p.pre_prepare.sequence

pub agreed-IsNumbered :
    (digest_of : Int64 → String) (ps : List PrePrepareRequest)
    → All (IsAgreed digest_of) ps
    → All IsNumbered ps
agreed-IsNumbered digest_of [] _ = tt
agreed-IsNumbered digest_of (p ∷ ps) ((_, small), rest) =
    (small, agreed-IsNumbered digest_of ps rest)

pub gather_list-IsNonNegative :
    (ps : List PrePrepareRequest) (g : Gathered)
    → All IsNumbered ps
    → All IsNonNegative g.1
    → All IsNonNegative (gather_list ps g).1
gather_list-IsNonNegative [] g _ smalls = smalls
gather_list-IsNonNegative (p ∷ ps) g (small, rest) smalls =
    gather_list-IsNonNegative ps (gather_one p g) rest (gather_one-IsNonNegative p g small smalls)

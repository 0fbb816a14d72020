-- ===== src/Node/ViewChange/Renewal.antt =====
-- A new view keeps the requests that its view change messages report as prepared.
use mathlib.Core.Path.{subst}
use pbft_2pc.Prelude.{
  ap, sym, ◌∙◌, ℕ, zero, suc, ◌+◌, ◌-◌, ◌^◌, ◌≤◌, ◌<◌, String, nat_eq, Int64, add64, bias, true,
  false, none, some, List, [], ◌∷◌, ◌++◌, map, contains, Table, All, ◌==◌, ok, ◌≡◌, refl, inl, inr,
  arith, Bool-cases, >>=-eq-ok, ok-injective,
}
use pbft_2pc.Messages.{PrePrepareRequest, SignedViewChangeRequest, SignedNewViewRequest}
use pbft_2pc.Deps.{Bolt, Crypto, PrivateKey}
use pbft_2pc.Node.{Node, Effect, emit_all}
use pbft_2pc.Node.ViewChange.{
  sort_seqs, Gathered, gather_all, renew_pre_prepare, renew_from, renew_all, skips_new_view,
  new_view_request, enter_new_view, send_new_view,
}
use pbft_2pc.Node.ViewChange.Sorted.{
  IsNonNegative, Ascending, contains-sort_seqs, sort_seqs-All, sort_seqs-Ascending, Ascending-range,
  last?-All,
}
use pbft_2pc.Node.ViewChange.Gathering.{
  IsIn, reported, IsAgreed, IsGathered, gather_all-eq, gather_list-IsGathered, gather_list-there,
  gather_list-IsNonNegative, agreed-IsNumbered,
}

IsIn-All : {A : Type 0} (P : A → Type 0) (x : A) (xs : List A) → IsIn x xs → All P xs → P x
IsIn-All P x [] member _ = absurd member
IsIn-All P x (y ∷ ys) (inl same) (p, _) = rw same p
IsIn-All P x (y ∷ ys) (inr member) (_, ps) = IsIn-All P x ys member ps

pub rounds : (a b : ℕ) → IsNonNegative b → a ≤ b → bias b + 1 - bias a ≡ b + 1 - a
rounds a b top low = omega arith

-- A pre-prepare without the client's request.
abbrev pub IsBare : PrePrepareRequest → Type 0
IsBare r = r.client_req ≡ none

module _ ⦃crypto : Crypto⦄ where
  renew_from-IsIn :
      (k : ℕ) (key : PrivateKey) (view i j : ℕ) (m : Table Int64 PrePrepareRequest)
      → i ≤ j
      → j < i + k
      → i + k ≤ 2 ^ 63
      → IsIn (renew_pre_prepare key view j (m j)) (renew_from k key view i m)
  unfolding renew_from
  renew_from-IsIn zero key view i j m low high small = absurd (omega (arith, low, high))
  renew_from-IsIn (suc k) key view i j m low high small = elim (Bool-cases (j == i)) [
    | inl same ↦ (let e : j ≡ i = ground (arith, same) in rw e (inl refl))
    | inr other ↦
        (let next : add64 i 1 ≡ i + 1 = omega (arith, small) in
          let later : ◌≤◌ (i + 1) j = ground (arith, other, low) in
          inr (
            rw next (
              renew_from-IsIn k key view (i + 1) j m later (omega (arith, high))
                (omega (arith, small)))))
  ]

  -- Each number between the first and the last one of an ascending list is renewed.
  renew_all-IsIn :
      (key : PrivateKey) (view s : ℕ) (seqs : List ℕ) (m : Table Int64 PrePrepareRequest)
      → Ascending seqs
      → All IsNonNegative seqs
      → contains seqs s ≡ true
      → IsIn (renew_pre_prepare key view s (m s)) (renew_all key view seqs m)
  unfolding renew_all
  renew_all-IsIn key view s [] m ascending smalls member = absurd (cc)
  renew_all-IsIn key view s (a ∷ seqs) m ascending smalls member =
      let (low, (b, last, high)) = Ascending-range a seqs s ascending member in
      let top : IsNonNegative b = last?-All IsNonNegative (a ∷ seqs) b last smalls in
      let count = rounds a b top (omega (arith, low, high)) in
      rw last (
        renew_from-IsIn (bias b + 1 - bias a) key view a s m low (omega (arith, count, high, low))
          (omega (arith, count, top, low, high)))

  renew_from-IsBare :
      (k : ℕ) (key : PrivateKey) (view i : Int64) (m : Table Int64 PrePrepareRequest)
      → All IsBare (renew_from k key view i m)
  unfolding renew_from renew_pre_prepare
  renew_from-IsBare zero key view i m = tt
  renew_from-IsBare (suc k) key view i m = (refl, renew_from-IsBare k key view (add64 i 1) m)

  renew_all-IsBare :
      (key : PrivateKey) (view : Int64) (seqs : List Int64) (m : Table Int64 PrePrepareRequest)
      → All IsBare (renew_all key view seqs m)
  unfolding renew_all
  renew_all-IsBare key view [] m = tt
  renew_all-IsBare key view (a ∷ seqs) m = renew_from-IsBare _ key view a m

  -- The request of a number that is gathered is renewed, with its digest.
  renewed :
      (digest_of : Int64 → String) (key : PrivateKey) (view : Int64) (p : PrePrepareRequest)
      (certs : List SignedViewChangeRequest) (m : Table Int64 PrePrepareRequest) (seqs : List Int64)
      → All (IsAgreed digest_of) (reported certs)
      → IsIn p (reported certs)
      → gather_all certs ((λ _. none), []) ≡ ok (m, seqs)
      → (r : PrePrepareRequest) × IsIn r (renew_all key view (sort_seqs seqs) m)
        × (r.pre_prepare.view ≡ view)
        × (r.pre_prepare.sequence ≡ p.pre_prepare.sequence)
        × (r.pre_prepare.digest ≡ p.pre_prepare.digest)
  unfolding renew_pre_prepare
  renewed digest_of key view p certs m seqs agreed member gathered =
      let s = p.pre_prepare.sequence in
      let ps = reported certs in
      let same = gather_all-eq certs ((λ _. none), []) (m, seqs) gathered in
      let known : IsGathered digest_of s (m, seqs) =
        subst (λ g. IsGathered digest_of s g) (sym same)
          (gather_list-IsGathered digest_of s ps ((λ _. none), []) agreed (inl refl)) in
      let small : All IsNonNegative seqs = rw (ap (λ g. g.1) same) (
        gather_list-IsNonNegative ps ((λ _. none), []) (agreed-IsNumbered digest_of ps agreed)
          tt) in
      let (q, there) = gather_list-there p ps ((λ _. none), []) member in
      let present : m s ≡ some q = ap (λ (g : Gathered). g.0 s) same ∙ there in
      elim known [
        | inl nothing ↦ absurd (cc)
        | inr (q', there', digest, listed) ↦ (
          renew_pre_prepare key view s (m s),
          renew_all-IsIn key view s (sort_seqs seqs) m (sort_seqs-Ascending seqs small)
              (sort_seqs-All IsNonNegative seqs small) (contains-sort_seqs s seqs ∙ listed),
          refl,
          refl,
          rw there' (digest ∙ sym (IsIn-All (IsAgreed digest_of) p ps member agreed).0),
        )
      ]

module _ ⦃bolt : Bolt⦄ ⦃crypto : Crypto⦄ where
  -- If a node that does not skip it sends the new view of some view change messages, where the requests
  -- that the messages report as prepared have, for each sequence number, one digest, and numbers that
  -- are not negative, then for each of these requests the message that it sends to its cluster has a
  -- pre-prepare of the new view with the number and the digest of the request. None of the pre-prepares
  -- of the message carries a client's request.
  pub send_new_view_keeps :
      (digest_of : Int64 → String) (view : Int64) (certs : List SignedViewChangeRequest)
      (n n' : Node) (p : PrePrepareRequest)
      → skips_new_view view n ≡ false
      → All (IsAgreed digest_of) (reported certs)
      → IsIn p (reported certs)
      → send_new_view view certs n ≡ ok n'
      → (req : SignedNewViewRequest) × (n'.outbox
          ≡ n.outbox ++ map (λ q. Effect.send_new_view q req) (n.client_map n.cluster_id))
        × (n'.view ≡ view)
        × ((r : PrePrepareRequest) × IsIn r req.new_view.prepared
            × (r.pre_prepare.view ≡ view)
            × (r.pre_prepare.sequence ≡ p.pre_prepare.sequence)
            × (r.pre_prepare.digest ≡ p.pre_prepare.digest))
        × All IsBare req.new_view.prepared
  unfolding send_new_view enter_new_view new_view_request emit_all
  send_new_view_keeps digest_of view certs n n' p going agreed member h =
      let ((m, seqs), gathered, rest) =
        >>=-eq-ok (gather_all certs ((λ _. none), [])) _ (rw going at h) in
      let kept = renewed digest_of n.private_key view p certs m seqs agreed member gathered in
      let done = ok-injective rest in
      (
        new_view_request view certs m (sort_seqs seqs) n,
        ap (λ (k : Node). k.outbox) (sym done),
        ap (λ (k : Node). k.view) (sym done),
        kept,
        renew_all-IsBare n.private_key view (sort_seqs seqs) m,
      )

-- ===== src/Node/ViewChange/Successor.antt =====
-- The state from which a cluster goes on after a new view: the leader's and the others'.
use pbft_2pc.Prelude.{
  ap, sym, ◌∙◌, ℕ, zero, suc, ◌+◌, ◌-◌, ◌^◌, ◌<◌, nat_eq, false, Int64, add64, bias, none, some,
  List, [], ◌∷◌, ◌++◌, map, last?, Table, All, ok, ◌≡◌, refl, arith, >>=-eq-ok, ok-injective,
}
use pbft_2pc.Messages.{
  PrePrepareRequest, SignedViewChangeRequest, NewViewRequest, SignedNewViewRequest,
}
use pbft_2pc.Deps.{Bolt, Codec, Crypto, PrivateKey}
use pbft_2pc.Node.{Node, Effect, emit_all}
use pbft_2pc.Node.ViewChange.{
  sort_seqs, gather_all, renew_pre_prepare, renew_from, renew_all, skips_new_view, seq_after,
  new_view_request, enter_new_view, send_new_view,
}
use pbft_2pc.Node.ViewChange.Sorted.{
  IsNonNegative, Ascending, sort_seqs-All, sort_seqs-Ascending, Ascending-range, last?-All,
}
use pbft_2pc.Node.ViewChange.Gathering.{
  reported, IsNumbered, gather_all-eq, gather_list-IsNonNegative,
}
use pbft_2pc.Node.ViewChange.Renewal.{rounds}
use pbft_2pc.Node.ViewChange.Handlers.{adopt_new_view}

module _ ⦃crypto : Crypto⦄ where
  renew_from-last? :
      (k : ℕ) (key : PrivateKey) (view i j : ℕ) (m : Table Int64 PrePrepareRequest)
      → i + k ≡ j
      → j < 2 ^ 63
      → last? (renew_from (suc k) key view i m) ≡ some (renew_pre_prepare key view j (m j))
  unfolding renew_from
  renew_from-last? zero key view i j m end small = let e : i ≡ j = omega (arith, end) in rw e refl
  renew_from-last? (suc k) key view i j m end small =
      let next : add64 i 1 ≡ i + 1 = omega (arith, end, small) in
      renew_from-last? k key view (add64 i 1) j m (rw next (omega (arith, end))) small

module _ ⦃bolt : Bolt⦄ ⦃crypto : Crypto⦄ where
  -- The sequence number behind the pre-prepares of a new view is the one behind the numbers gathered.
  next-renew_all :
      (key : PrivateKey) (view : ℕ) (seqs : List ℕ) (m : Table Int64 PrePrepareRequest)
      (r : NewViewRequest)
      → Ascending seqs
      → All IsNonNegative seqs
      → r.prepared ≡ renew_all key view seqs m
      → seq_after r ≡ elim (last? seqs) [ none ↦ seq_after r | some b ↦ add64 b 1 ]
  unfolding renew_all seq_after renew_pre_prepare
  next-renew_all key view [] m r ascending smalls listed = refl
  next-renew_all key view (a ∷ seqs) m r ascending smalls listed =
      let (low, (b, last, high)) = Ascending-range a seqs a ascending (ground arith) in
      let top : IsNonNegative b = last?-All IsNonNegative (a ∷ seqs) b last smalls in
      let count : bias b + 1 - bias a ≡ suc (b - a) = rounds a b top high ∙ omega (arith, high) in
      let listed' : r.prepared ≡ renew_from (suc (b - a)) key view a m =
        listed ∙ rw (last, count) refl in
      let ends =
        ap last? listed' ∙ renew_from-last? (b - a) key view a b m (omega (arith, high)) top in
      rw (ends, seq_after, last) refl

module _ ⦃bolt : Bolt⦄ ⦃codec : Codec⦄ ⦃crypto : Crypto⦄ where
  -- If a node that does not skip it sends the new view of some view change messages whose prepared
  -- requests have numbers that are not negative, then it sends one message to its cluster, and every
  -- node that adopts this message has the view, the next sequence number and the next number to execute
  -- that the sender has.
  pub new_view_agrees :
      (view : Int64) (certs : List SignedViewChangeRequest) (n n' : Node)
      → skips_new_view view n ≡ false
      → All IsNumbered (reported certs)
      → send_new_view view certs n ≡ ok n'
      → (req : SignedNewViewRequest) × (n'.outbox
          ≡ n.outbox ++ map (λ q. Effect.send_new_view q req) (n.client_map n.cluster_id))
        × ((k : Node)
            → ((adopt_new_view req.new_view k).view ≡ n'.view)
              × ((adopt_new_view req.new_view k).seq ≡ n'.seq)
              × ((adopt_new_view req.new_view k).executor_seq ≡ n'.executor_seq))
  unfolding send_new_view enter_new_view new_view_request emit_all adopt_new_view
  new_view_agrees view certs n n' going numbered h =
      let ((m, seqs), gathered, rest) =
        >>=-eq-ok (gather_all certs ((λ _. none), [])) _ (rw going at h) in
      let same = gather_all-eq certs ((λ _. none), []) (m, seqs) gathered in
      let small : All IsNonNegative seqs =
        rw (ap (λ g. g.1) same)
          (gather_list-IsNonNegative (reported certs) ((λ _. none), []) numbered tt) in
      let req = new_view_request view certs m (sort_seqs seqs) n in
      let done = sym (ok-injective rest) in
      let next =
        next-renew_all n.private_key view (sort_seqs seqs) m req.new_view
          (sort_seqs-Ascending seqs small) (sort_seqs-All IsNonNegative seqs small) refl in
      (
        req,
        ap (λ (k : Node). k.outbox) done,
        λ k. (
          ap (λ (k : Node). k.view) (sym done),
          next ∙ ap (λ (k : Node). k.seq) (sym done),
          ap (λ (k : Node). k.executor_seq) (sym done),
        ),
      )

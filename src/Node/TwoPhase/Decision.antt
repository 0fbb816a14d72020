-- ===== src/Node/TwoPhase/Decision.antt =====
-- How the coordinator of a cross-shard transaction goes on after the answer of the participant.
use mathlib.Core.Option.{some-injective}
use pbft_2pc.Prelude.{
  ap, sym, String, true, false, Option, none, some, Result, ok, err, panic, is_ok, ◌≡◌, refl,
}
use pbft_2pc.Messages.{SignedClientRequest, PrePrepareRequest, PcReply}
use pbft_2pc.Deps.{Bolt, Codec, Crypto}
use pbft_2pc.Node.{Node}
use pbft_2pc.Node.Primary.{run_pbft}
use pbft_2pc.Node.TwoPhase.{
  Ending, not_prepared, aborted, commit_failed, committed, resending, told, crashed, Exchange,
  resend, finish_commit, decide,
}

module _ ⦃bolt : Bolt⦄ ⦃codec : Codec⦄ ⦃crypto : Crypto⦄ where
  -- What an ending says of the participant's answer and of the second round, which starts at `n`.
  abbrev pub Decided :
      Exchange → Result PcReply → SignedClientRequest → Node → Ending → Node → Type 0
  Decided x answer req n committed n' =
      (is_ok answer ≡ true)
      × (ppr : PrePrepareRequest) × (m : Node) × (last : PcReply) × (run_pbft x.second_round req 0
            "C" n
          ≡ some (ok ppr, m))
      × (resend x.commit_answers ≡ some last)
      × (n' ≡ finish_commit req m)
  Decided x answer req n resending n' =
      (is_ok answer ≡ true)
      × (ppr : PrePrepareRequest) × (m : Node) × (run_pbft x.second_round req 0 "C" n
          ≡ some (ok ppr, m))
      × (resend x.commit_answers ≡ none)
      × (n' ≡ finish_commit req m)
  Decided x answer req n aborted n' =
      (is_ok answer ≡ false)
      × (r : Result PrePrepareRequest) × (run_pbft x.second_round req 0 "A" n ≡ some (r, n'))
  Decided x answer req n commit_failed n' =
      (is_ok answer ≡ true)
      × (text : String) × (run_pbft x.second_round req 0 "C" n ≡ some (err text, n'))
  Decided x answer req n crashed n' =
      (is_ok answer ≡ true) × (run_pbft x.second_round req 0 "C" n ≡ some (panic, n'))
  Decided x answer req n not_prepared n' = ⊥

  -- The end of a round "C", on its result and on the last answer.
  abbrev pub after_commit :
      Option PcReply
      → SignedClientRequest
      → Result PrePrepareRequest
      → Node
      → Option (Ending × Node)
  after_commit last req (ok ppr) m = some (told last, finish_commit req m)
  after_commit last req (err text) m = some (commit_failed, m)
  after_commit last req panic m = some (crashed, m)

  abbrev pub decide_on :
      Exchange
      → Result PcReply
      → SignedClientRequest
      → Option (Result PrePrepareRequest × Node)
      → Option (Ending × Node)
  decide_on x (ok reply) req none = none
  decide_on x (ok reply) req (some (r, m)) = after_commit (resend x.commit_answers) req r m
  decide_on x (err text) req none = none
  decide_on x (err text) req (some (r, m)) = some (aborted, m)
  decide_on x panic req none = none
  decide_on x panic req (some (r, m)) = some (aborted, m)

  abbrev pub second_status : Result PcReply → String
  second_status (ok reply) = "C"
  second_status (err text) = "A"
  second_status panic = "A"

  committed_by :
      (x : Exchange) (reply : PcReply) (req : SignedClientRequest) (n : Node) (e : Ending)
      (n' : Node) (r : Result PrePrepareRequest) (m : Node) (last : Option PcReply)
      → run_pbft x.second_round req 0 "C" n ≡ some (r, m)
      → resend x.commit_answers ≡ last
      → after_commit last req r m ≡ some (e, n')
      → Decided x (ok reply) req n e n'
  committed_by x reply req n e n' (ok ppr) m none ran sent h =
      let h' = some-injective _ _ h in
      rw (sym (ap (λ p. p.0) h')) (refl, ppr, m, ran, sent, sym (ap (λ p. p.1) h'))
  committed_by x reply req n e n' (ok ppr) m (some last) ran sent h =
      let h' = some-injective _ _ h in
      rw (sym (ap (λ p. p.0) h')) (refl, ppr, m, last, ran, sent, sym (ap (λ p. p.1) h'))
  committed_by x reply req n e n' (err text) m last ran sent h =
      let h' = some-injective _ _ h in
      rw (sym (ap (λ p. p.0) h')) (refl, text, rw (sym (ap (λ p. p.1) h')) ran)
  committed_by x reply req n e n' panic m last ran sent h =
      let h' = some-injective _ _ h in
      rw (sym (ap (λ p. p.0) h')) (refl, rw (sym (ap (λ p. p.1) h')) ran)

  aborted_by :
      (x : Exchange) (answer : Result PcReply) (req : SignedClientRequest) (n : Node) (e : Ending)
      (n' : Node) (r : Result PrePrepareRequest) (m : Node)
      → is_ok answer ≡ false
      → run_pbft x.second_round req 0 "A" n ≡ some (r, m)
      → ◌≡◌ {A = Option (Ending × Node)} (some (aborted, m)) (some (e, n'))
      → Decided x answer req n e n'
  aborted_by x answer req n e n' r m refused ran h =
      let h' = some-injective _ _ h in
      let d : Decided x answer req n aborted n' = (refused, r, rw (sym (ap (λ p. p.1) h')) ran) in
      rw (sym (ap (λ p. p.0) h')) d

  pub by_decision :
      (x : Exchange) (answer : Result PcReply) (req : SignedClientRequest) (n : Node) (e : Ending)
      (n' : Node) (o : Option (Result PrePrepareRequest × Node))
      → run_pbft x.second_round req 0 (second_status answer) n ≡ o
      → decide_on x answer req o ≡ some (e, n')
      → Decided x answer req n e n'
  by_decision x (ok reply) req n e n' none ran h = absurd (cc)
  by_decision x (ok reply) req n e n' (some (r, m)) ran h =
      committed_by x reply req n e n' r m (resend x.commit_answers) ran refl h
  by_decision x (err text) req n e n' none ran h = absurd (cc)
  by_decision x (err text) req n e n' (some (r, m)) ran h =
      aborted_by x (err text) req n e n' r m refl ran h
  by_decision x panic req n e n' none ran h = absurd (cc)
  by_decision x panic req n e n' (some (r, m)) ran h = aborted_by x panic req n e n' r m refl ran h

  pub decide-eq :
      (x : Exchange) (answer : Result PcReply) (req : SignedClientRequest) (n : Node)
      → decide x answer req n
        ≡ decide_on x answer req (run_pbft x.second_round req 0 (second_status answer) n)
  unfolding decide
  decide-eq x (ok reply) req n = go (run_pbft x.second_round req 0 "C" n)
    where
      go :
          (o : Option (Result PrePrepareRequest × Node))
          → (elim o [
            | none ↦ none
            | some (r, n') ↦ elim r [
              | ok ppr ↦ some (told (resend x.commit_answers), finish_commit req n')
              | err text ↦ some (commit_failed, n')
              | panic ↦ some (crashed, n')
            ]
          ])
            ≡ decide_on x (ok reply) req o
      go none = refl
      go (some (ok ppr, m)) = refl
      go (some (err text, m)) = refl
      go (some (panic, m)) = refl
  decide-eq x (err text) req n = go (run_pbft x.second_round req 0 "A" n)
    where
      go :
          (o : Option (Result PrePrepareRequest × Node))
          → (elim o [ none ↦ none | some (r, n') ↦ some (aborted, n') ])
            ≡ decide_on x (err text) req o
      go none = refl
      go (some (r, m)) = refl
  decide-eq x panic req n = go (run_pbft x.second_round req 0 "A" n)
    where
      go :
          (o : Option (Result PrePrepareRequest × Node))
          → (elim o [ none ↦ none | some (r, n') ↦ some (aborted, n') ]) ≡ decide_on x panic req o
      go none = refl
      go (some (r, m)) = refl

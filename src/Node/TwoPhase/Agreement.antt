-- ===== src/Node/TwoPhase/Agreement.antt =====
-- When a coordinator commits a cross-shard transaction, and when it aborts one.
use mathlib.Core.Option.{some-injective}
use pbft_2pc.Prelude.{
  ap, sym, ◌∙◌, Int64, Option, none, some, Result, ok, err, panic, ◌≡◌, ◌≢◌, refl, Option-cases,
  inl, inr,
}
use pbft_2pc.Messages.{SignedClientRequest, PrePrepareRequest}
use pbft_2pc.Deps.{Bolt, Codec, Crypto}
use pbft_2pc.Node.{Node}
use pbft_2pc.Node.Primary.{run_pbft}
use pbft_2pc.Node.TwoPhase.{
  Ending, not_prepared, crashed, Exchange, pc_request, decide, participant, run_cross_shard,
}
use pbft_2pc.Node.TwoPhase.Decision.{Decided, by_decision, decide-eq}

module _ ⦃bolt : Bolt⦄ ⦃codec : Codec⦄ ⦃crypto : Crypto⦄ where
  -- The first round ended well, and the participant was asked.
  abbrev pub Asked : Exchange → SignedClientRequest → Int64 → Node → Ending → Node → Type 0
  Asked x req old_seq n e n' =
      (ppr : PrePrepareRequest) × (m : Node) × (run_pbft x.first_round req old_seq "P" n
        ≡ some (ok ppr, m))
      × Decided x (x.prepare_answer (pc_request req ppr m)) req (x.during_prepare m) e n'

  abbrev pub after_first :
      Exchange
      → SignedClientRequest
      → Option (Result PrePrepareRequest × Node)
      → Option (Ending × Node)
  after_first x req none = none
  after_first x req (some (ok ppr, m)) =
      elim (participant req.client_request.transaction.cluster_to m) [
        | none ↦ some (crashed, m)
        | some leader ↦ decide x (x.prepare_answer (pc_request req ppr m)) req (x.during_prepare m)
      ]
  after_first x req (some (err text, m)) = some (not_prepared, m)
  after_first x req (some (panic, m)) = some (crashed, m)

  pub run_cross_shard-eq :
      (x : Exchange) (req : SignedClientRequest) (old_seq : Int64) (n : Node)
      → run_cross_shard x req old_seq n
        ≡ after_first x req (run_pbft x.first_round req old_seq "P" n)
  unfolding run_cross_shard
  run_cross_shard-eq x req old_seq n = go (run_pbft x.first_round req old_seq "P" n)
    where
      go :
          (o : Option (Result PrePrepareRequest × Node))
          → (elim o [
            | none ↦ none
            | some (r, m) ↦ elim r [
              | ok ppr ↦ elim (participant req.client_request.transaction.cluster_to m) [
                | none ↦ some (crashed, m)
                | some leader ↦
                    decide x (x.prepare_answer (pc_request req ppr m)) req (x.during_prepare m)
              ]
              | err text ↦ some (not_prepared, m)
              | panic ↦ some (crashed, m)
            ]
          ])
            ≡ after_first x req o
      go none = refl
      go (some (ok ppr, m)) = refl
      go (some (err text, m)) = refl
      go (some (panic, m)) = refl

  by_first_round :
      (x : Exchange) (req : SignedClientRequest) (old_seq : Int64) (n n' : Node) (e : Ending)
      (o : Option (Result PrePrepareRequest × Node))
      → run_pbft x.first_round req old_seq "P" n ≡ o
      → after_first x req o ≡ some (e, n')
      → e ≢ not_prepared
      → e ≢ crashed
      → Asked x req old_seq n e n'
  by_first_round x req old_seq n n' e none ran h on alive = absurd (cc)
  by_first_round x req old_seq n n' e (some (ok ppr, m)) ran h on alive =
      elim (Option-cases (participant req.client_request.transaction.cluster_to m)) [
        | inl unknown ↦
            absurd
              (alive (sym (ap (λ p. p.0) (some-injective _ _ (rw (unknown, after_first) at h)))))
        | inr (leader, known) ↦
            (let answer = x.prepare_answer (pc_request req ppr m) in
              let h' = rw (known, after_first) at h in
              (
                ppr,
                m,
                ran,
                by_decision x answer req (x.during_prepare m) e n' _ refl
                    (sym (decide-eq x answer req (x.during_prepare m)) ∙ h'),
              ))
      ]
  by_first_round x req old_seq n n' e (some (err text, m)) ran h on alive =
      absurd (on (sym (ap (λ p. p.0) (some-injective _ _ h))))
  by_first_round x req old_seq n n' e (some (panic, m)) ran h on alive =
      absurd (alive (sym (ap (λ p. p.0) (some-injective _ _ h))))

  -- A run that neither fails before the participant is asked nor ends the process has asked it, and what
  -- its ending says of the answers and of the second round holds.
  pub run_cross_shard-Asked :
      (x : Exchange) (req : SignedClientRequest) (old_seq : Int64) (n n' : Node) (e : Ending)
      → run_cross_shard x req old_seq n ≡ some (e, n')
      → e ≢ not_prepared
      → e ≢ crashed
      → Asked x req old_seq n e n'
  run_cross_shard-Asked x req old_seq n n' e h on alive =
      by_first_round x req old_seq n n' e _ refl (sym (run_cross_shard-eq x req old_seq n) ∙ h) on
        alive

-- ===== src/Node/TwoPhase/Silence.antt =====
-- What a participant leaves running when it has prepared a transaction.
use pbft_2pc.Prelude.{
  ap, ◌∙◌, string_eq, nat_eq, some, ok, ◌≡◌, Option-cases, Result-cases, inl, inr,
}
use pbft_2pc.Messages.{PrePrepareRequest, PcPrepareReq, PcReply}
use pbft_2pc.Deps.{Bolt, Codec, Crypto}
use pbft_2pc.Node.{Node, Effect, emit}
use pbft_2pc.Node.Primary.{Schedule, run_pbft}
use pbft_2pc.Node.Primary.Success.{HasCommitted, IsSound, run_pbft_new-HasCommitted}
use pbft_2pc.Node.Primary.Endings.{endings, IsQuiet}
use pbft_2pc.Node.Primary.Silence.{run_pbft-Silent}
use pbft_2pc.Node.TwoPhase.{pc_prepare, validate_pcp_commits}
use pbft_2pc.Node.TwoPhase.Both.{round_ended-ok, refused}

module _ ⦃bolt : Bolt⦄ ⦃codec : Codec⦄ ⦃crypto : Crypto⦄ where
  -- A participant whose call of PCPrepare ends without an error has run a round "P" of the request, whose
  -- pre-prepare carries the request and which has committed it with that status and three commits or
  -- more, and the state that this round leaves is the one in which the call ends. The call has started
  -- no goroutine that waits for the message to commit of this transaction and aborts it otherwise, nor
  -- another one that ends it: those that the node has are the ones that it had before the call, and if
  -- it had none then it has none. The leader is honest, and what happens during the waits of the round
  -- starts no such goroutine and changes nothing of a log entry but its state.
  pub pc_prepare_unguarded :
      (s : Schedule) (req : PcPrepareReq) (reply : PcReply) (p q : Node)
      → IsSound s
      → IsQuiet req.signed_client_req.client_request.transaction.client_seq s
      → pc_prepare s req p ≡ some (ok reply, q)
      → (ppr : PrePrepareRequest) × (run_pbft s req.signed_client_req 0 "P" p ≡ some (ok ppr, q))
        × (ppr.client_req ≡ some req.signed_client_req)
        × HasCommitted ppr "P" req.signed_client_req.client_request.transaction.client_seq q
        × (endings req.signed_client_req.client_request.transaction.client_seq q
            ≡ endings req.signed_client_req.client_request.transaction.client_seq p)
  unfolding pc_prepare
  pc_prepare_unguarded s req reply p q sound quiet h =
      let k = req.signed_client_req.client_request.transaction.client_seq in
      elim (Result-cases (validate_pcp_commits req p)) [
        | inr bad ↦ absurd (refused reply q p _ (validate_pcp_commits req p) bad h)
        | inl (u, good) ↦ elim (Option-cases (run_pbft s req.signed_client_req 0 "P" p)) [
          | inl waits ↦ (let h' = rw (good, pc_prepare, waits) at h in absurd (cc))
          | inr ((r, m), ran) ↦
              (let h' = rw (good, pc_prepare, ran) at h in
                let (ppr, well, ended) =
                  round_ended-ok reply q m
                    (λ t. emit (Effect.go_wait_for_commit req.signed_client_req) m) r h' in
                let ran' : run_pbft s req.signed_client_req 0 "P" p ≡ some (ok ppr, q) =
                  ran ∙ ap (λ a. some (a, m)) well ∙ ap (λ k. some (ok ppr, k)) ended in
                let (new, done) =
                  run_pbft_new-HasCommitted s req.signed_client_req "P" p q ppr sound ran' in
                let calm = run_pbft-Silent k s req.signed_client_req 0 "P" p quiet in
                (ppr, ran', new, done, rw ran' at calm))
        ]
      ]

-- ===== src/Node/TwoPhase/Both.antt =====
-- The coordinator and the participant of one cross-shard transaction: what both have done when the
-- coordinator has committed.
use mathlib.Core.Option.{some-injective}
use pbft_2pc.Prelude.{
  ap, String, Int64, true, false, some, Option, List, [], ◌∷◌, Result, ok, err, panic, is_ok, ◌≡◌,
  ◌⊎◌, refl, assign, nat_eq,
}
use pbft_2pc.Messages.{SignedClientRequest, PrePrepareRequest, PcPrepareReq, PcReply}
use pbft_2pc.Deps.{Bolt, Codec, Crypto}
use pbft_2pc.Node.{Node}
use pbft_2pc.Node.Primary.{Schedule, run_pbft}
use pbft_2pc.Node.Primary.Success.{HasCommitted, IsSound}
use pbft_2pc.Node.Primary.Logged.{IsFor}
use pbft_2pc.Node.TwoPhase.{pc_reply, pc_prepare, pc_commit}

module _ ⦃bolt : Bolt⦄ ⦃codec : Codec⦄ ⦃crypto : Crypto⦄ where
  -- What the coordinator sees of its call of PCPrepare: the answer of a participant that is in a state
  -- `p`, or an error in its place.
  pub data PrepareAnswer (p : Node) (req : PcPrepareReq) : Result PcReply → Type 0 where
    answered :
        (s : Schedule) (answer : Result PcReply) (q : Node)
        → IsSound s
        → pc_prepare s req p ≡ some (answer, q)
        → PrepareAnswer p req answer
    lost : (text : String) → PrepareAnswer p req (err text)

  -- What the coordinator sees of its calls of PCCommit on a participant that starts in a state: a call
  -- or its answer can be lost, and anything can happen to the participant before a call.
  pub data CommitAnswers (req : PcPrepareReq) : Node → List (Result PcReply) → Type 0 where
    none_left : (p : Node) → CommitAnswers req p []
    call_lost :
        (p : Node) (text : String) (answers : List (Result PcReply))
        → CommitAnswers req p answers
        → CommitAnswers req p (err text ∷ answers)
    answer_lost :
        (p q : Node) (text : String) (s : Schedule) (answer : Result PcReply)
        (answers : List (Result PcReply))
        → pc_commit s req p ≡ some (answer, q)
        → CommitAnswers req q answers
        → CommitAnswers req p (err text ∷ answers)
    call_answered :
        (p q : Node) (s : Schedule) (answer : Result PcReply) (answers : List (Result PcReply))
        → IsSound s
        → pc_commit s req p ≡ some (answer, q)
        → CommitAnswers req q answers
        → CommitAnswers req p (answer ∷ answers)
    meanwhile :
        (p : Node) (change : Node → Node) (answers : List (Result PcReply))
        → CommitAnswers req (change p) answers
        → CommitAnswers req p answers

  -- A round that a node in some state runs well, for a new request if the old sequence number is 0, and
  -- that commits the request of its pre-prepare with a status.
  abbrev pub RunsRound : SignedClientRequest → Int64 → String → Node → Type 0
  RunsRound req old_seq status before =
      (s : Schedule) × (ppr : PrePrepareRequest) × (after : Node) × (run_pbft s req old_seq status
          before
        ≡ some (ok ppr, after))
      × (HasCommitted ppr status req.client_request.transaction.client_seq after
          × IsFor req old_seq ppr)

  -- The participant's state when it starts the round of a call of PCCommit.
  abbrev pub notes_commit : PcPrepareReq → Node → Node
  notes_commit req p = record p {
    pc_commits_map =
        assign req.signed_client_req.client_request.transaction.client_seq true p.pc_commits_map;
  }

  -- The states of the participant in which a call of PCCommit has reached it.
  abbrev pub calls :
      (req : PcPrepareReq) (p : Node) (answers : List (Result PcReply))
      → CommitAnswers req p answers
      → List Node
  calls req _ _ (none_left p) = []
  calls req _ _ (call_lost p text answers later) = calls req p answers later
  calls req _ _ (answer_lost p q text s answer answers ran later) = p ∷ calls req q answers later
  calls req _ _ (call_answered p q s answer answers sound ran later) = p ∷ calls req q answers later
  calls req _ _ (meanwhile p change answers later) = calls req (change p) answers later

  -- One of some states is such that the participant, called in it, runs its round "C" well.
  abbrev pub RunsCommit : PcPrepareReq → List Node → Type 0
  RunsCommit req [] = ⊥
  RunsCommit req (p ∷ ps) =
      RunsRound req.signed_client_req 0 "C" (notes_commit req p) ⊎ RunsCommit req ps

  pub round_ended-ok :
      (reply : PcReply) (q m : Node) (failed : String → Node) (r : Result PrePrepareRequest)
      → ◌≡◌ {A = Option (Result PcReply × Node)}
          (elim r [
            | ok ppr ↦ some (ok (pc_reply m), m)
            | err text ↦ some (err text, failed text)
            | panic ↦ some (panic, m)
          ])
          (some (ok reply, q))
      → (ppr : PrePrepareRequest) × (r ≡ ok ppr) × (m ≡ q)
  round_ended-ok reply q m failed (ok ppr) h = (ppr, refl, ap (λ p. p.1) (some-injective _ _ h))
  round_ended-ok reply q m failed (err text) h = absurd (cc)
  round_ended-ok reply q m failed panic h = absurd (cc)

  pub refused :
      (reply : PcReply) (q p : Node) (k : Option (Result PcReply × Node)) (r : Result (Unit {0}))
      → is_ok r ≡ false
      → ◌≡◌ {A = Option (Result PcReply × Node)}
          (elim r [ ok done ↦ k | err text ↦ some (err text, p) | panic ↦ some (panic, p) ])
          (some (ok reply, q))
      → ⊥
  refused reply q p k (ok done) bad h = cc
  refused reply q p k (err text) bad h = cc
  refused reply q p k panic bad h = cc

-- ===== src/Node/TwoPhase.antt =====
-- Two-phase commit between two clusters: runCrossShard of node/pbft_runner.go on the leader of the
-- sender's cluster, and PCPrepare, PCCommit, waitForPCCommit and validatePCPCommits of node/rpc.go
-- on the leader of the receiver's. The answers of the other leader are arguments.
pub mod Votes
pub mod Decision
pub mod Agreement
pub mod Both
pub mod Silence
pub mod Told
use pbft_2pc.Prelude.{
  ℕ, String, string_eq, nat_eq, Int64, Bool, true, false, not, Option, none, some, List, [], ◌∷◌,
  select, length, leb, contains, assign, ◌==◌, if◌then◌else◌, ◌&&◌, ◌+◌, ◌*◌, Result, ok, err,
  panic, or_fail, or_panic, fail_if, ◌>>=◌, ◌>>◌,
}
use pbft_2pc.Messages.{
  SignedClientRequest, PrePrepareRequest, CommitRequest, PcPrepareReq, PcReply, Message,
}
use pbft_2pc.Config.{f}
use pbft_2pc.Deps.{Bolt, Codec, Crypto}
use pbft_2pc.Cryptox.{verify_signature, md5_hash}
use pbft_2pc.Db.Wal.{erase_wal}
use pbft_2pc.Node.{Node, Effect, emit}
use pbft_2pc.Node.Log.{get_public_key}
use pbft_2pc.Node.Certs.{is_signed_by}
use pbft_2pc.Node.Primary.{Schedule, run_pbft}
use pbft_2pc.Node.Executor.{reply_to_client}

-- Where the coordinator's run of a cross-shard transaction stands.
pub data Ending : Type 0 where
  -- the first round failed, and the participant was not asked
  not_prepared : Ending
  -- the participant refused, and the round "A" was run
  aborted : Ending
  -- the participant agreed, and the round "C" failed
  commit_failed : Ending
  -- the participant agreed, the round "C" has succeeded, and PCCommit is called again and again
  resending : Ending
  -- one of the calls of PCCommit has succeeded too
  committed : Ending
  -- the receiver's cluster has no leader that is known and connected, and the process ends
  crashed : Ending

module _ ⦃bolt : Bolt⦄ where
  -- What a coordinator meets: its two rounds, and the participant's answers with what happens to the
  -- node during the first call. The calls of PCCommit are repeated until one succeeds.
  pub record Exchange : Type 0 where
    pub first_round : Schedule
    pub during_prepare : Node → Node
    pub prepare_answer : PcPrepareReq → Result PcReply
    pub second_round : Schedule
    pub commit_answers : List (Result PcReply)

-- Calls until the first success: `none` while the loop still runs after the last answer.
unfoldable pub resend : List (Result PcReply) → Option PcReply
resend [] = none
resend (ok reply ∷ answers) = some reply
resend (err text ∷ answers) = resend answers
resend (panic ∷ answers) = resend answers

-- Where the calls of PCCommit leave the coordinator.
abbrev pub told : Option PcReply → Ending
told none = resending
told (some reply) = committed

module _ ⦃bolt : Bolt⦄ ⦃codec : Codec⦄ ⦃crypto : Crypto⦄ where
  -- An error of the round is only logged; a panic ends the process.
  unfoldable pub run_intrashard :
      Schedule → SignedClientRequest → Int64 → Node → Option (Result (Unit {0}) × Node)
  run_intrashard s req old_seq n = elim (run_pbft s req old_seq "" n) [
    | none ↦ none
    | some (r, n') ↦ elim r [
      | ok ppr ↦ some (ok tt, n')
      | err text ↦ some (ok tt, n')
      | panic ↦ some (panic, n')
    ]
  ]

  -- The request that both calls of the participant carry.
  unfoldable pub pc_request : SignedClientRequest → PrePrepareRequest → Node → PcPrepareReq
  pc_request req ppr n = record {
    signed_client_req = req;
    commits = n.commit_certs ppr.pre_prepare.sequence;
    node_id = n.id;
  }

  -- What the coordinator does when its round "C" has succeeded, before it calls PCCommit.
  unfoldable pub finish_commit : SignedClientRequest → Node → Node
  finish_commit req n =
      let cr = req.client_request in
      emit (Effect.go_erase_wal cr.transaction.client_seq)
        (emit (Effect.go_reply cr.timestamp true cr.transaction.client_seq) n)

  -- `runCrossShard` after the participant's answer to PCPrepare.
  unfoldable pub decide :
      Exchange → Result PcReply → SignedClientRequest → Node → Option (Ending × Node)
  decide x answer req n = elim answer [
    | ok reply ↦ elim (run_pbft x.second_round req 0 "C" n) [
      | none ↦ none
      | some (r, n') ↦ elim r [
        | ok ppr ↦ some (told (resend x.commit_answers), finish_commit req n')
        | err text ↦ some (commit_failed, n')
        | panic ↦ some (crashed, n')
      ]
    ]
    | err text ↦ elim (run_pbft x.second_round req 0 "A" n) [
      | none ↦ none
      | some (r, n') ↦ some (aborted, n')
    ]
    | panic ↦ elim (run_pbft x.second_round req 0 "A" n) [
      | none ↦ none
      | some (r, n') ↦ some (aborted, n')
    ]
  ]

  -- The leader of the receiver's cluster, if this node has a connection to it.
  unfoldable pub participant : String → Node → Option String
  participant cluster n = elim (n.leader_map cluster) [
    | none ↦ none
    | some leader ↦ if contains (n.client_map cluster) leader then some leader else none
  ]

  -- `runCrossShard`: `none` while it still waits for a round or for the participant.
  unfoldable pub run_cross_shard :
      Exchange → SignedClientRequest → Int64 → Node → Option (Ending × Node)
  run_cross_shard x req old_seq n = elim (run_pbft x.first_round req old_seq "P" n) [
    | none ↦ none
    | some (r, n') ↦ elim r [
      | ok ppr ↦ elim (participant req.client_request.transaction.cluster_to n') [
        | none ↦ some (crashed, n')
        | some leader ↦
            decide x (x.prepare_answer (pc_request req ppr n')) req (x.during_prepare n')
      ]
      | err text ↦ some (not_prepared, n')
      | panic ↦ some (crashed, n')
    ]
  ]

  -- The tests of the loop of `validatePCPCommits`.
  unfoldable pub is_pc_commit : String → Node → CommitRequest → Bool
  is_pc_commit digest n c =
      digest == c.commit.digest
      && is_signed_by c.commit.node_id (Message.commit c.commit) c.signature n

  unfoldable pub validate_pcp_commits : PcPrepareReq → Node → Result (Unit {0})
  validate_pcp_commits req n = do
    key ← get_public_key "client" n
    verify_signature key (Message.client_request req.signed_client_req.client_request)
        req.signed_client_req.signature
    digest ← md5_hash (some req.signed_client_req)
    fail_if (not (leb (2 * f + 1) (length (select (is_pc_commit digest n) req.commits))))
        "insufficient commits in pcprepare"

  unfoldable pub pc_reply : Node → PcReply
  pc_reply n = record { success = true; cluster = n.cluster_id; node_id = n.id }

  unfoldable pub pc_prepare : Schedule → PcPrepareReq → Node → Option (Result PcReply × Node)
  pc_prepare s req n = elim (validate_pcp_commits req n) [
    | ok done ↦ elim (run_pbft s req.signed_client_req 0 "P" n) [
      | none ↦ none
      | some (r, n') ↦ elim r [
        | ok ppr ↦ some (ok (pc_reply n'), n')
        | err text ↦ some (err text, emit (Effect.go_wait_for_commit req.signed_client_req) n')
        | panic ↦ some (panic, n')
      ]
    ]
    | err text ↦ some (err text, n)
    | panic ↦ some (panic, n)
  ]

  -- `waitForPCCommit` after its sleep of a second
  unfoldable pub wait_for_pc_commit : Schedule → SignedClientRequest → Node → Option Node
  wait_for_pc_commit s req n =
      if n.pc_commits_map req.client_request.transaction.client_seq
      then some n
      else elim (run_pbft s req 0 "A" n) [ none ↦ none | some (r, n') ↦ some n' ]

  unfoldable pub pc_commit : Schedule → PcPrepareReq → Node → Option (Result PcReply × Node)
  pc_commit s req n =
      let seq = req.signed_client_req.client_request.transaction.client_seq in
      let n' = record n { pc_commits_map = assign seq true n.pc_commits_map } in
      elim (run_pbft s req.signed_client_req 0 "C" n') [
        | none ↦ none
        | some (r, n'') ↦ elim r [
          | ok ppr ↦ some (ok (pc_reply n''), n'')
          | err text ↦ some (err text, n'')
          | panic ↦ some (panic, n'')
        ]
      ]

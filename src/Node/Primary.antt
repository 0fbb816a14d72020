-- ===== src/Node/Primary.antt =====
-- The leader's side of one PBFT round: runPBFT of node/operations.go, in the pieces between its
-- waits, and as a whole over a schedule of what happens during the waits.
pub mod Failure
pub mod Silence
pub mod Success
pub mod Endings
pub mod Logged
use pbft_2pc.Prelude.{
  String, string_eq, nat_eq, Int64, add64, lt64, Bool, true, false, not, Option, none, some, List,
  [], ◌∷◌, map, select, assign, ◌==◌, if◌then◌else◌, ◌||◌, ◌+◌, ◌*◌, Result, ok, err, panic,
  or_fail, or_panic, value_or, ◌>>=◌,
}
use pbft_2pc.Messages.{
  Transaction, SignedClientRequest, PrePrepare, PrePrepareRequest, PrepareRequest, Commit,
  CommitRequest, Message, Reply,
}
use pbft_2pc.Config.{f}
use pbft_2pc.Collect.{Arrival, collect}
use pbft_2pc.Deps.{Bolt, Codec, Crypto}
use pbft_2pc.Cryptox.{sign_message, md5_hash}
use pbft_2pc.Db.Balances.{get_balance}
use pbft_2pc.Node.{Node, Effect, emit, emit_all}
use pbft_2pc.Node.Log.{write_log, save_pre_prepare, log_client_request, log_digest}
use pbft_2pc.Node.Certs.{validate_prepares, validate_commits}
use pbft_2pc.Node.Locking.{clients_of, acquire_locks, release_locks}
use pbft_2pc.Node.Backup.{needs_locks}

-- What happens to the node during the waits of `runPBFT`, and what the two channels bring.
module _ ⦃bolt : Bolt⦄ where
  pub record Schedule : Type 0 where
    pub sleeps : List (Node → Node)
    pub during_prepares : Node → Node
    pub prepare_arrivals : List (Arrival PrepareRequest)
    pub during_commits : Node → Node
    pub commit_arrivals : List (Arrival CommitRequest)

module _ ⦃bolt : Bolt⦄ ⦃codec : Codec⦄ ⦃crypto : Crypto⦄ where
  -- The balance test of the sender's shard, once the locks are held.
  unfoldable pub check_balance : Transaction → Node → Result (Unit {0})
  check_balance t n =
      if t.cluster_from == n.cluster_id
      then elim (get_balance t.from n.db) [
        | ok balance ↦ if lt64 balance t.amount then err "transaction amount is" else ok tt
        | err text ↦ err text
        | panic ↦ panic
      ]
      else ok tt

  -- The part of `runPBFT` under `if status == "P" || status == ""`.
  unfoldable pub lock_clients :
      List (Node → Node) → Transaction → String → Node → Option (Result (Unit {0}) × Node)
  lock_clients sleeps t status n =
      if needs_locks status
      then elim (acquire_locks sleeps (clients_of t) (λ _. false) n) [
        | none ↦ none
        | some n' ↦ elim (check_balance t n') [
          | ok done ↦ some (ok tt, n')
          | err text ↦ some (err text, release_locks t n')
          | panic ↦ some (panic, n')
        ]
      ]
      else some (ok tt, n)

  -- The pre-prepare of a new request takes the next sequence number; an error of the signature is
  -- ignored. That of an old one is looked up.
  unfoldable pub make_pre_prepare :
      SignedClientRequest → Int64 → String → String → Node → Result PrePrepareRequest × Node
  make_pre_prepare req old_seq status digest n =
      let pp : PrePrepare = record {
        view = n.view;
        sequence = n.seq;
        digest = digest;
        status = status;
      } in
      if old_seq == 0
      then (
        ok (record {
          pre_prepare = pp;
          signature = value_or (sign_message n.private_key (Message.pre_prepare pp)) [];
          client_req = some req;
        }),
        record n { seq = add64 n.seq 1 },
      )
      else (or_panic (n.pre_prepares old_seq), n)

  -- The other nodes of the cluster.
  unfoldable pub peers : Node → List String
  peers n = select (λ node_id. not (node_id == n.id)) (n.client_map n.cluster_id)

  -- From the pre-prepare to its broadcast. The value is the request that was logged.
  unfoldable pub log_and_send :
      SignedClientRequest → PrePrepareRequest → Node → Result PrePrepareRequest × Node
  log_and_send req ppr n =
      let seq = ppr.pre_prepare.sequence in
      let n' = log_client_request req seq n in
      elim ppr.client_req [
        | none ↦ (panic, n')
        | some logged ↦
            (let cr = logged.client_request in
              let n'' =
                save_pre_prepare seq ppr
                  (write_log seq cr.transaction n'.view ppr.pre_prepare.digest cr.timestamp n') in
              let made = record n'' {
                prepare_chan_made = assign seq true n''.prepare_chan_made;
                commit_chan_made = assign seq true n''.commit_chan_made;
              } in
              (ok ppr, emit_all (map (λ p. Effect.send_pre_prepare p ppr) (peers made)) made))
      ]

  -- From the digest to the broadcast.
  unfoldable pub start_round :
      List (Node → Node)
      → SignedClientRequest
      → Int64
      → String
      → Node
      → Option (Result PrePrepareRequest × Node)
  start_round sleeps req old_seq status n = elim (md5_hash (some req)) [
    | err text ↦ some (err "could not create digest", n)
    | panic ↦ some (panic, n)
    | ok digest ↦ elim (lock_clients sleeps req.client_request.transaction status n) [
      | none ↦ none
      | some (r, n') ↦ elim r [
        | err text ↦ some (err text, n')
        | panic ↦ some (panic, n')
        | ok done ↦
            (let (r', n'') = make_pre_prepare req old_seq status digest n' in
              elim r' [
                | ok ppr ↦ some (log_and_send req ppr n'')
                | err text ↦ some (err text, n'')
                | panic ↦ some (panic, n'')
              ])
      ]
    ]
  ]

  -- What follows `collectPrepares`: is the request prepared?
  unfoldable pub finish_prepares : Int64 → Transaction → List PrepareRequest → Node → Bool × Node
  finish_prepares seq t certs n =
      let (prepared, n') =
        validate_prepares seq certs
          (record n { prepare_certs = assign seq certs n.prepare_certs }) in
      (prepared, if prepared then emit (Effect.go_commit_to_self seq) n' else release_locks t n')

  -- The end of `collectCommits` and what follows it: is the request committed?
  unfoldable pub finish_commits :
      Int64 → String → Transaction → List CommitRequest → Node → Bool × Node
  finish_commits seq status t certs n =
      let (committed, n') =
        validate_commits seq certs status t.client_seq t
          (record n { commit_certs = assign seq certs n.commit_certs }) in
      (committed, if committed then n' else release_locks t n')

  -- The commit phase.
  unfoldable pub commit_round :
      Schedule
      → PrePrepareRequest
      → Transaction
      → String
      → Node
      → Option (Result PrePrepareRequest × Node)
  commit_round s ppr t status n =
      let seq = ppr.pre_prepare.sequence in
      elim (collect (2 * f + 1) [] s.commit_arrivals) [
        | none ↦ none
        | some certs ↦
            (let (committed, n') = finish_commits seq status t certs (s.during_commits n) in
              some ((if committed then ok ppr else err "pbft run failed not committed"), n'))
      ]

  -- The prepare phase and what follows it.
  unfoldable pub prepare_round :
      Schedule
      → PrePrepareRequest
      → Transaction
      → String
      → Node
      → Option (Result PrePrepareRequest × Node)
  prepare_round s ppr t status n =
      let seq = ppr.pre_prepare.sequence in
      elim (collect (2 * f) [] s.prepare_arrivals) [
        | none ↦ none
        | some certs ↦
            (let (prepared, n') = finish_prepares seq t certs (s.during_prepares n) in
              let rest = commit_round s ppr t status n' in
              if prepared then rest else some (err "pbft run failed not prepared", n'))
      ]

  -- `runPBFT`: `none` while it still waits at the end of the schedule.
  unfoldable pub run_pbft :
      Schedule
      → SignedClientRequest
      → Int64
      → String
      → Node
      → Option (Result PrePrepareRequest × Node)
  run_pbft s req old_seq status n = elim (start_round s.sleeps req old_seq status n) [
    | none ↦ none
    | some (r, n') ↦ elim r [
      | ok ppr ↦ prepare_round s ppr req.client_request.transaction status n'
      | err text ↦ some (err text, n')
      | panic ↦ some (panic, n')
    ]
  ]

  -- The request of `sendCommitToSelf`; its error is only logged.
  unfoldable pub self_commit : Int64 → Node → CommitRequest
  self_commit seq n =
      let c : Commit = record {
        view = n.view;
        sequence = seq;
        digest = log_digest seq n;
        node_id = n.id;
      } in
      record { commit = c; signature = value_or (sign_message n.private_key (Message.commit c)) [] }

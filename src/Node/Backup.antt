-- ===== src/Node/Backup.antt =====
-- A backup: the handler PrePrepare of node/rpc.go, and the goroutine that it starts, sendPrepareReq
-- and sendCommitReq of node/operations.go. The leader's answers to the two calls are arguments, and
-- so is what other goroutines do to the node while a call waits.
pub mod Acceptance
use pbft_2pc.Prelude.{
  String, string_eq, nat_eq, Int64, sub64, Bool, true, false, not, Option, none, some, List, [],
  ◌∷◌, assign, ◌==◌, if◌then◌else◌, ◌&&◌, ◌||◌, Result, ok, err, panic, or_fail, or_panic, fail_if,
  ◌>>=◌, ◌>>◌,
}
use pbft_2pc.Messages.{
  Transaction, SignedClientRequest, PrePrepareRequest, Prepare, PrepareRequest, Commit,
  CommitRequest, Message,
}
use pbft_2pc.Deps.{Bolt, Codec, Crypto}
use pbft_2pc.Cryptox.{sign_message, verify_signature, md5_hash}
use pbft_2pc.Node.{Node, Effect, emit}
use pbft_2pc.Node.Log.{
  write_log, save_pre_prepare, check_pre_prepare, log_client_request, get_view_leader, log_digest,
}
use pbft_2pc.Node.Certs.{validate_prepares, validate_commits}
use pbft_2pc.Node.Locking.{clients_of, acquire_locks, release_locks}

module _ ⦃bolt : Bolt⦄ ⦃codec : Codec⦄ ⦃crypto : Crypto⦄ where
  -- Has the log an entry of this view with another digest?
  unfoldable pub conflicts : PrePrepareRequest → Node → Bool
  conflicts req n = elim (n.transaction_log req.pre_prepare.sequence) [
    | none ↦ false
    | some entry ↦
        entry.view == req.pre_prepare.view && not (entry.digest == req.pre_prepare.digest)
  ]

  -- The tests of `PrePrepare` on a live node that is not changing view, up to the first write. The
  -- value is the client's request, which is dereferenced from the client's signature on.
  unfoldable pub check_request : PrePrepareRequest → Node → Result SignedClientRequest
  check_request req n = do
    fail_if (not (n.view == req.pre_prepare.view)) "view does not match"
    fail_if
        (not (req.pre_prepare.sequence == 1)
          && not (check_pre_prepare (sub64 req.pre_prepare.sequence 1) n))
        "haven't received all previous preprepares"
    fail_if (conflicts req n) "different digest in log for same view"
    digest ← md5_hash req.client_req
    fail_if (not (digest == req.pre_prepare.digest)) "digest does not match the message"
    client_key ← or_fail (n.public_key_map "client") "no public key found for client"
    client_req ← or_panic req.client_req
    verify_signature client_key (Message.client_request client_req.client_request)
        client_req.signature
    leader_key ← or_panic (n.public_key_map (get_view_leader n))
    verify_signature leader_key (Message.pre_prepare req.pre_prepare) req.signature
    ok client_req

  -- `_, ok = node.RequestLog[…]; if !ok { node.logClientRequest(…) }`
  unfoldable pub log_if_new : SignedClientRequest → Int64 → Node → Node
  log_if_new client_req seq n = elim (n.request_log client_req.client_request.timestamp) [
    | none ↦ log_client_request client_req seq n
    | some known ↦ n
  ]

  unfoldable pub needs_locks : String → Bool
  needs_locks status = status == "" || status == "P"

  -- The rest of `PrePrepare` once the locks are held.
  unfoldable pub record_request : PrePrepareRequest → SignedClientRequest → String → Node → Node
  record_request req client_req leader n =
      let pp = req.pre_prepare in
      let cr = client_req.client_request in
      emit (Effect.go_send_prepare pp.sequence req leader pp.status) (
        save_pre_prepare pp.sequence req
          (write_log pp.sequence cr.transaction n.view pp.digest cr.timestamp n))

  unfoldable pub accept_request :
      List (Node → Node) → PrePrepareRequest → SignedClientRequest → Node → Option Node
  accept_request sleeps req client_req n =
      let leader = get_view_leader n in
      let n' = log_if_new client_req req.pre_prepare.sequence (emit Effect.go_start_timer n) in
      let t = client_req.client_request.transaction in
      let locked =
        if needs_locks req.pre_prepare.status
        then acquire_locks sleeps (clients_of t) (λ m. m.byzantine) n'
        else some n' in
      elim locked [ none ↦ none | some n'' ↦ some (record_request req client_req leader n'') ]

  -- The handler, on the sleeps of its loop: `none` while it still waits for the locks.
  unfoldable pub pre_prepare :
      List (Node → Node) → PrePrepareRequest → Node → Option (Result (Unit {0}) × Node)
  pre_prepare sleeps req n =
      if n.view_changing
      then some (ok tt, emit Effect.go_start_timer n)
      else if not n.live
      then some (ok tt, n)
      else elim (check_request req n) [
        | ok client_req ↦ elim (accept_request sleeps req client_req n) [
          | none ↦ none
          | some n' ↦ some (ok tt, n')
        ]
        | err text ↦ some (err text, n)
        | panic ↦ some (panic, n)
      ]

  -- The message that `sendPrepareReq` signs: a Byzantine node leaves the digest out.
  unfoldable pub prepare_message : PrePrepareRequest → Node → Prepare
  prepare_message req n = record {
    view = req.pre_prepare.view;
    sequence = req.pre_prepare.sequence;
    digest = if not n.byzantine then req.pre_prepare.digest else "";
    node_id = n.id;
  }

  -- `sendPrepareReq` up to the call of the leader.
  unfoldable pub make_prepare :
      PrePrepareRequest → Transaction → Node → Result PrepareRequest × Node
  make_prepare req t n =
      let p = prepare_message req n in
      elim (sign_message n.private_key (Message.prepare p)) [
        | ok signature ↦ (ok (record { prepare = p; signature = signature }), n)
        | err text ↦ (err text, release_locks t n)
        | panic ↦ (panic, n)
      ]

  -- `sendCommitReq` up to the call of the leader.
  unfoldable pub make_commit : Int64 → Node → Result CommitRequest
  make_commit seq n = do
    entry ← or_fail (n.transaction_log seq) "no transaction"
    let c : Commit = record {
      view = n.view;
      sequence = seq;
      digest = if not n.byzantine then entry.digest else "";
      node_id = n.id;
    }
    signature ← sign_message n.private_key (Message.commit c)
    ok (record { commit = c; signature = signature })

  -- `sendCommitReq` on the answer of the leader.
  unfoldable pub receive_commits :
      Int64 → String → Transaction → Result (List CommitRequest) → Node → Result (Unit {0}) × Node
  receive_commits seq status t (ok certs) n =
      let n' = record n { commit_certs = assign seq certs n.commit_certs } in
      (ok tt, (validate_commits seq certs status t.client_seq t n').1)
  receive_commits seq status t (err text) n = (err text, n)
  receive_commits seq status t panic n = (panic, n)

  -- `sendPrepareReq` on the answer of the leader, up to the call of `sendCommitReq`: is the request
  -- prepared?
  unfoldable pub receive_prepares :
      Int64 → Transaction → Result (List PrepareRequest) → Node → Result Bool × Node
  receive_prepares seq t (ok certs) n =
      let n' = record n { prepare_certs = assign seq certs n.prepare_certs } in
      let (prepared, n'') = validate_prepares seq certs n' in (ok prepared, n'')
  receive_prepares seq t (err text) n = (err text, release_locks t n)
  receive_prepares seq t panic n = (panic, n)

  -- What happens while a backup's goroutine waits for the leader, and what the leader answers.
  pub record Answers : Type 0 where
    pub during_prepare : Node → Node
    pub prepares : Result (List PrepareRequest)
    pub during_commit : Node → Node
    pub commits : Result (List CommitRequest)

  unfoldable pub send_commit_req : Int64 → String → Transaction → Answers → Node → Node
  send_commit_req seq status t a n = elim (make_commit seq n) [
    | ok req ↦ (receive_commits seq status t a.commits (a.during_commit n)).1
    | err text ↦ n
    | panic ↦ n
  ]

  -- The whole goroutine; its error is not looked at.
  unfoldable pub send_prepare_req :
      Int64 → PrePrepareRequest → Transaction → String → Answers → Node → Node
  send_prepare_req seq req t status a n =
      let (r, n') = make_prepare req t n in
      elim r [
        | ok prepare ↦
            (let (r', n'') = receive_prepares seq t a.prepares (a.during_prepare n') in
              elim r' [
                | ok prepared ↦ if prepared then send_commit_req seq status t a n'' else n''
                | err text ↦ n''
                | panic ↦ n''
              ])
        | err text ↦ n'
        | panic ↦ n'
      ]

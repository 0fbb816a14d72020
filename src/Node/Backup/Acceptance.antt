-- ===== src/Node/Backup/Acceptance.antt =====
-- What a backup accepts, and that it does not accept two requests for one sequence number in a view.
use mathlib.Core.Option.{some-injective}
use pbft_2pc.Prelude.{
  ap, sym, ◌∙◌, String, string_eq, nat_eq, sub64, true, false, not, Option, none, some, List, ◌==◌,
  if◌then◌else◌, ◌&&◌, Result, ok, err, panic, ◌≡◌, ◌≢◌, refl, arith, Bool-cases, Option-cases,
  Result-cases, inl, inr, ◌⊎◌, eq_iff,
}
use pbft_2pc.Messages.{SignedClientRequest, PrePrepareRequest}
use pbft_2pc.Deps.{Bolt, Codec, Crypto}
use pbft_2pc.Cryptox.{md5_hash}
use pbft_2pc.Node.{Node, Effect, emit}
use pbft_2pc.Node.Log.{write_log, save_pre_prepare, check_pre_prepare, get_view_leader}
use pbft_2pc.Node.Locking.{clients_of, acquire_locks}
use pbft_2pc.Node.Backup.{
  conflicts, check_request, log_if_new, needs_locks, record_request, accept_request, pre_prepare,
}

module _ ⦃bolt : Bolt⦄ ⦃codec : Codec⦄ ⦃crypto : Crypto⦄ where
  -- A request that conflicts with the log fails the tests.
  check_request_conflict :
      (req : PrePrepareRequest) (n : Node)
      → conflicts req n ≡ true
      → (text : String) × (check_request req n ≡ err text)
  unfolding check_request
  check_request_conflict req n h = elim (Bool-cases (not (n.view == req.pre_prepare.view))) [
    | inl other ↦ ("view does not match", rw other refl)
    | inr same ↦
        elim (Bool-cases (
          not (req.pre_prepare.sequence == 1)
          && not (check_pre_prepare (sub64 req.pre_prepare.sequence 1) n))) [
            | inl gap ↦ ("haven't received all previous preprepares", rw (same, gap) refl)
            | inr next ↦ ("different digest in log for same view", rw (same, next, h) refl)
          ]
  ]

  -- What is known of a request that passes the tests.
  abbrev pub Passed : PrePrepareRequest → SignedClientRequest → Node → Type 0
  Passed req client_req n =
      (n.view ≡ req.pre_prepare.view)
      × (conflicts req n ≡ false)
      × (req.client_req ≡ some client_req)
      × (md5_hash (some client_req) ≡ ok req.pre_prepare.digest)
      × ((req.pre_prepare.sequence ≡ 1)
          ⊎ (check_pre_prepare (sub64 req.pre_prepare.sequence 1) n ≡ true))

  check_request-Passed :
      (req : PrePrepareRequest) (c : SignedClientRequest) (n : Node)
      → check_request req n ≡ ok c
      → Passed req c n
  unfolding check_request
  check_request-Passed req c n h = elim (Result-cases (md5_hash req.client_req)) [
    | inl (digest, hashed) ↦
        ground (arith, Option-cases req.client_req, eq_iff digest req.pre_prepare.digest)
    | inr bad ↦ absurd (ground arith)
  ]

  -- The log of a node has an accepted request at its sequence number.
  abbrev Logged : PrePrepareRequest → SignedClientRequest → Node → Type 0
  Logged req c n =
      n.transaction_log req.pre_prepare.sequence
      ≡ some (record {
        transaction = c.client_request.transaction;
        view = n.view;
        state = 1;
        digest = req.pre_prepare.digest;
        timestamp = c.client_request.timestamp;
        client_seq = c.client_request.transaction.client_seq;
      })

  record_request-Logged :
      (req : PrePrepareRequest) (c : SignedClientRequest) (leader : String) (n : Node)
      → Logged req c (record_request req c leader n)
  unfolding record_request emit save_pre_prepare write_log
  record_request-Logged req c leader n = ground arith

  -- The node once the locks are held, if they are needed.
  abbrev ready : List (Node → Node) → PrePrepareRequest → SignedClientRequest → Node → Option Node
  ready sleeps req c n =
      let n' = log_if_new c req.pre_prepare.sequence (emit Effect.go_start_timer n) in
      if needs_locks req.pre_prepare.status
      then acquire_locks sleeps (clients_of c.client_request.transaction) (λ m. m.byzantine) n'
      else some n'

  accept_request-eq :
      (sleeps : List (Node → Node)) (req : PrePrepareRequest) (c : SignedClientRequest) (n : Node)
      → accept_request sleeps req c n ≡ elim (ready sleeps req c n) [
        | none ↦ none
        | some m ↦ some (record_request req c (get_view_leader n) m)
      ]
  unfolding accept_request
  accept_request-eq sleeps req c n = refl

  accept_request-Logged :
      (sleeps : List (Node → Node)) (req : PrePrepareRequest) (c : SignedClientRequest)
      (n n' : Node)
      → accept_request sleeps req c n ≡ some n'
      → Logged req c n'
  accept_request-Logged sleeps req c n n' h =
      let h' = sym (accept_request-eq sleeps req c n) ∙ h in
      elim (Option-cases (ready sleeps req c n)) [
        | inl late ↦ (let h'' = rw late at h' in absurd (cc))
        | inr (m, e) ↦
            (let h'' = rw e at h' in
              rw (sym (some-injective _ _ h'')) (record_request-Logged req c (get_view_leader n) m))
      ]

  -- What the handler does with the result of the tests.
  abbrev handle :
      List (Node → Node)
      → PrePrepareRequest
      → Node
      → Result SignedClientRequest
      → Option (Result (Unit {0}) × Node)
  handle sleeps req n (ok c) = elim (accept_request sleeps req c n) [
    | none ↦ none
    | some n' ↦ some (ok tt, n')
  ]
  handle sleeps req n (err text) = some (err text, n)
  handle sleeps req n panic = some (panic, n)

  pre_prepare-eq :
      (sleeps : List (Node → Node)) (req : PrePrepareRequest) (n : Node)
      → n.live ≡ true
      → n.view_changing ≡ false
      → pre_prepare sleeps req n ≡ handle sleeps req n (check_request req n)
  unfolding pre_prepare
  pre_prepare-eq sleeps req n live steady = simp (live, steady)

  handled_well :
      (sleeps : List (Node → Node)) (req : PrePrepareRequest) (n n' : Node)
      (r : Result SignedClientRequest)
      → check_request req n ≡ r
      → handle sleeps req n r ≡ some (ok tt, n')
      → (c : SignedClientRequest) × (check_request req n ≡ ok c)
        × (accept_request sleeps req c n ≡ some n')
  handled_well sleeps req n n' (ok c) e h = elim (Option-cases (accept_request sleeps req c n)) [
    | inl late ↦ (let h' = rw (late, handle) at h in absurd (cc))
    | inr (m, ready_at) ↦
        (let h' = rw (ready_at, handle) at h in
          (c, e, ready_at ∙ ap some (ap (λ x. x.1) (some-injective _ _ h'))))
  ]
  handled_well sleeps req n n' (err text) e h =
      absurd (let e' = ap (λ x. x.0) (some-injective _ _ h) in cc)
  handled_well sleeps req n n' panic e h =
      absurd (let e' = ap (λ x. x.0) (some-injective _ _ h) in cc)

  -- A live backup that is not changing view answers a request well only if the
  -- request is of its view, follows a request that it knows (or is the first), does not conflict with
  -- its log, and carries the digest of the client's request. It then has logged the request.
  pub pre_prepare-accepts :
      (sleeps : List (Node → Node)) (req : PrePrepareRequest) (n n' : Node)
      → n.live ≡ true
      → n.view_changing ≡ false
      → pre_prepare sleeps req n ≡ some (ok tt, n')
      → (c : SignedClientRequest) × Passed req c n × Logged req c n'
  pre_prepare-accepts sleeps req n n' live steady h =
      let (c, passed, accepted) =
        handled_well sleeps req n n' _ refl (sym (pre_prepare-eq sleeps req n live steady) ∙ h) in
      (c, check_request-Passed req c n passed, accept_request-Logged sleeps req c n n' accepted)

  conflicts-Logged :
      (req req' : PrePrepareRequest) (c : SignedClientRequest) (n : Node)
      → Logged req c n
      → req'.pre_prepare.sequence ≡ req.pre_prepare.sequence
      → req'.pre_prepare.view ≡ n.view
      → req'.pre_prepare.digest ≢ req.pre_prepare.digest
      → conflicts req' n ≡ true
  unfolding conflicts
  conflicts-Logged req req' c n logged seq view other =
      ground
        (arith, logged, seq, view, other, eq_iff req.pre_prepare.digest req'.pre_prepare.digest)

  -- Let a backup that is live and not changing view accept a request, and be live and not changing
  -- view in the state that this leaves. There it answers a request for the same sequence number, of
  -- the view that it is in and with another digest, with an error, and nothing of its state changes.
  pub pre_prepare_once :
      (sleeps sleeps' : List (Node → Node)) (req req' : PrePrepareRequest) (n n' : Node)
      → n.live ≡ true
      → n.view_changing ≡ false
      → pre_prepare sleeps req n ≡ some (ok tt, n')
      → req'.pre_prepare.sequence ≡ req.pre_prepare.sequence
      → req'.pre_prepare.view ≡ n'.view
      → req'.pre_prepare.digest ≢ req.pre_prepare.digest
      → n'.live ≡ true
      → n'.view_changing ≡ false
      → (text : String) × (pre_prepare sleeps' req' n' ≡ some (err text, n'))
  pre_prepare_once sleeps sleeps' req req' n n' live steady h seq view other live' steady' =
      let (c, passed, logged) = pre_prepare-accepts sleeps req n n' live steady h in
      let conflict = conflicts-Logged req req' c n' logged seq view other in
      let (text, refused) = check_request_conflict req' n' conflict in
      (text, pre_prepare-eq sleeps' req' n' live' steady' ∙ ap (handle sleeps' req' n') refused)

-- ===== src/Node/Service.antt =====
-- The other handlers of node/rpc.go, by which the gateway and the nodes of the cluster call a node,
-- and the goroutines that the node's methods start.
use pbft_2pc.Prelude.{
  ℕ, String, string_eq, nat_eq, Int64, Bool, true, false, not, Option, none, some, List, [], ◌∷◌,
  map, length, leb, ◌==◌, if◌then◌else◌, ◌+◌, ◌*◌, Result, ok, err, panic, is_ok, or_fail, ◌>>=◌,
}
use pbft_2pc.Messages.{Transaction, SignedClientRequest, PrepareRequest, CommitRequest, Message}
use pbft_2pc.Config.{f, int_to_states}
use pbft_2pc.Timer.{start_if_not_running}
use pbft_2pc.Deps.{Bolt, Codec, Crypto, SavedUnit}
use pbft_2pc.Cryptox.{verify_signature}
use pbft_2pc.Db.Balances.{get_balance}
use pbft_2pc.Db.Logs.{save_transaction_to_db}
use pbft_2pc.Db.Wal.{erase_wal}
use pbft_2pc.Node.{Node, RequestData, Effect, emit}
use pbft_2pc.Node.Log.{get_view_leader, update_log, collect_garbage}
use pbft_2pc.Node.Certs.{verify_prepare_request, verify_commit_request, get_all_datastore}
use pbft_2pc.Node.Executor.{reply_to_client}

-- What `ExecuteTransaction` goes on to do.
pub data Dispatch : Type 0 where
  nothing : Dispatch
  intrashard : Int64 → Dispatch
  cross_shard : Int64 → Dispatch

module _ ⦃bolt : Bolt⦄ where
  unfoldable pub set_status : Bool → Node → Bool × Node
  set_status live n = (live, record n { live = live })

  unfoldable pub set_byzantine : Bool → Node → Bool × Node
  set_byzantine byzantine n = (byzantine, record n { byzantine = byzantine })

  unfoldable pub get_status : Int64 → Node → Result String
  get_status seq n = do
    entry ← or_fail (n.transaction_log seq) "no transaction"
    ok (int_to_states entry.state)

  unfoldable pub get_datastore : Node → List SavedUnit
  get_datastore n =
      map (λ u. record { seq = u.seq; transaction = u.transaction; status = u.status })
        (get_all_datastore n)

  -- The loop of the handlers Prepare and Commit that waits for a quorum of certificates: what other
  -- goroutines do to the node during each sleep is given, and the timer expires after the last one.
  unfoldable pub poll {ℓ} :
      {A : Type ℓ} → (Node → List A) → ℕ → List (Node → Node) → List A → Node → List A × Node
  poll read quorum [] last n = (last, n)
  poll read quorum (sleep ∷ sleeps) last n =
      let certs = read n in
      elim (leb quorum (length certs)) [
        | true ↦ (certs, sleep n)
        | false ↦ poll read quorum sleeps certs (sleep n)
      ]

  -- The answer of the handlers, on the last certificates that were read.
  unfoldable pub answer_quorum {ℓ} : {A : Type ℓ} → ℕ → String → List A → Result (List A)
  answer_quorum quorum text certs = if leb quorum (length certs) then ok certs else err text

module _ ⦃bolt : Bolt⦄ ⦃codec : Codec⦄ where
  unfoldable pub rpc_get_balance : String → Node → Result Int64
  rpc_get_balance client n = get_balance client n.db

  -- `saveTransaction`; its error is only logged.
  unfoldable pub save_transaction : Int64 → String → Node → Node
  save_transaction seq status n =
      let t : Option Transaction = elim (n.transaction_log seq) [
        | none ↦ none
        | some entry ↦ some entry.transaction
      ] in
      record n { db = (save_transaction_to_db seq t status n.db).1 }

module _ ⦃bolt : Bolt⦄ ⦃crypto : Crypto⦄ where
  -- The handler `Prepare`: the request that it puts into the channel, if it is valid, and the answer.
  -- Nothing comes back if the channel does not exist: a send on a nil channel waits forever.
  unfoldable pub prepare :
      List (Node → Node)
      → PrepareRequest
      → Node
      → Option (Option PrepareRequest × Result (List PrepareRequest) × Node)
  prepare sleeps req n =
      let seq = req.prepare.sequence in
      let valid = is_ok (verify_prepare_request req n) in
      let (certs, n') = poll (λ m. m.prepare_certs seq) (2 * f) sleeps [] n in
      if not n.live
      then some (none, err "i'm not alive", n)
      else if n.view_changing
      then some (none, ok [], n)
      else if n.byzantine
      then some (none, err "i'm byzantine", n)
      else if valid
      then (if n.prepare_chan_made seq
          then some (some req, answer_quorum (2 * f) "not prepared" certs, n')
          else none)
      else some (none, answer_quorum (2 * f) "not prepared" certs, n')

  -- The handler `Commit`; a Byzantine node answers too.
  unfoldable pub commit :
      List (Node → Node)
      → CommitRequest
      → Node
      → Option (Option CommitRequest × Result (List CommitRequest) × Node)
  commit sleeps req n =
      let seq = req.commit.sequence in
      let valid = is_ok (verify_commit_request req n) in
      let (certs, n') = poll (λ m. m.commit_certs seq) (2 * f + 1) sleeps [] n in
      if not n.live
      then some (none, err "i'm not alive", n)
      else if n.view_changing
      then some (none, ok [], n)
      else if valid
      then (if n.commit_chan_made seq
          then some (some req, answer_quorum (2 * f + 1) "not committed" certs, n')
          else none)
      else some (none, answer_quorum (2 * f + 1) "not committed" certs, n')

module _ ⦃bolt : Bolt⦄ ⦃codec : Codec⦄ ⦃crypto : Crypto⦄ where
  -- `ExecuteTransaction` behind the signature, on what the node has recorded for the timestamp.
  unfoldable pub dispatch : SignedClientRequest → Option RequestData → Node → Dispatch × Node
  dispatch req known n =
      let t = req.client_request.transaction in
      let n' = emit Effect.go_start_timer n in
      let old_seq : Int64 = elim known [ none ↦ 0 | some r ↦ r.seq ] in
      let leader = get_view_leader n' in
      if leader == n'.id
      then (
        (if t.cluster_from == t.cluster_to then intrashard old_seq else cross_shard old_seq),
        n',
      )
      else (nothing, emit (Effect.send_execute leader req) n')

  -- A request whose result is known is answered from the record.
  unfoldable pub answer_known : SignedClientRequest → Option RequestData → Node → Dispatch × Node
  answer_known req none n = dispatch req none n
  answer_known req (some r) n =
      let cr = req.client_request in
      if r.executed
      then (nothing, reply_to_client cr.timestamp r.result cr.transaction.client_seq n)
      else dispatch req (some r) n

  -- The handler `ExecuteTransaction`, up to the round that it runs.
  unfoldable pub execute_transaction : SignedClientRequest → Node → Result Dispatch × Node
  execute_transaction req n =
      let checked = do
        key ← or_fail (n.public_key_map "client") "no public key found"
        verify_signature key (Message.client_request req.client_request) req.signature
      in if not n.live
        then (ok nothing, n)
        else if n.view_changing
        then (ok nothing, emit Effect.go_start_timer n)
        else elim checked [
          | ok done ↦
              (let (d, n') = answer_known req (n.request_log req.client_request.timestamp) n in
                (ok d, n'))
          | err text ↦ (err text, n)
          | panic ↦ (panic, n)
        ]

  -- The goroutines that change the node at once. The others send, or run a round.
  unfoldable pub run_goroutine : Effect → Node → Node
  run_goroutine Effect.go_start_timer n = record n { tmr = start_if_not_running n.tmr }
  run_goroutine (Effect.go_save_transaction seq status) n = save_transaction seq status n
  run_goroutine (Effect.go_update_log seq status) n = update_log seq status n
  run_goroutine (Effect.go_reply timestamp result seq) n = reply_to_client timestamp result seq n
  run_goroutine (Effect.go_erase_wal seq) n = record n { db = erase_wal seq n.db }
  run_goroutine (Effect.go_collect_garbage seq) n = collect_garbage seq n
  run_goroutine _ n = n

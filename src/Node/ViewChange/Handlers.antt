-- ===== src/Node/ViewChange/Handlers.antt =====
-- The receivers of a view change: validateViewChangeCerts of node/operations.go, the handlers
-- ViewChange and NewView of node/rpc.go, and the expiry of the timer in node/timer.go.
use pbft_2pc.Prelude.{
  ℕ, string_eq, nat_eq, Int64, add64, lt64, true, false, Option, none, some, List, [], ◌∷◌, ◌++◌,
  length, leb, assign, ◌==◌, if◌then◌else◌, ◌&&◌, ◌+◌, ◌*◌, Result, ok, err, panic, ◌>>=◌,
}
use pbft_2pc.Messages.{SignedViewChangeRequest, NewViewRequest, SignedNewViewRequest, Message}
use pbft_2pc.Config.{f}
use pbft_2pc.Deps.{Bolt, Codec, Crypto}
use pbft_2pc.Cryptox.{verify_signature}
use pbft_2pc.Timer.{stop}
use pbft_2pc.Node.{Node, Effect, emit}
use pbft_2pc.Node.Log.{get_public_key, get_view_leader}
use pbft_2pc.Node.Certs.{verify_ignoring}
use pbft_2pc.Node.Checkpoints.{convert_proto_balances_to_map, validate_checkpoint_certs}
use pbft_2pc.Node.ViewChange.{send_view_change, seq_after}

module _ ⦃bolt : Bolt⦄ ⦃crypto : Crypto⦄ where
  -- The loop of `validateViewChangeCerts`, with the number of valid messages so far. `none` where a
  -- mutex is waited for.
  unfoldable pub count_view_changes :
      ℕ → List SignedViewChangeRequest → Node → Option (Result ℕ × Node)
  count_view_changes valid [] n = some (ok valid, n)
  count_view_changes valid (c ∷ cs) n =
      let r = c.view_change_request in
      elim (verify_ignoring r.node_id (Message.view_change r) c.signature n) [
        | err text ↦ count_view_changes valid cs n
        | panic ↦ some (panic, n)
        | ok done ↦ elim (lt64 0 r.last_stable_checkpoint) [
          | false ↦ count_view_changes (valid + 1) cs n
          | true ↦
              elim (validate_checkpoint_certs r.last_stable_checkpoint r.checkpoint_certs
                (convert_proto_balances_to_map r.balances) n) [
                  | none ↦ none
                  | some (res, n') ↦ elim res [
                    | ok done ↦ count_view_changes (valid + 1) cs n'
                    | err text ↦ some (err "view change checkpoint certs verification failed", n')
                    | panic ↦ some (panic, n')
                  ]
                ]
        ]
      ]

  unfoldable pub validate_view_change_certs :
      List SignedViewChangeRequest → Node → Option (Result (Unit {0}) × Node)
  validate_view_change_certs certs n = elim (count_view_changes 0 certs n) [
    | none ↦ none
    | some (r, n') ↦ some (
      (r >>= λ valid.
          if leb (2 * f + 1) valid then ok tt else err "failed to validate view change messages"),
      n',
    )
  ]

module _ ⦃bolt : Bolt⦄ ⦃codec : Codec⦄ ⦃crypto : Crypto⦄ where
  -- The node after the message was stored, and after the second part of the handler: a node joins
  -- the view change at f+1 messages, and the leader of its present view starts the new view.
  unfoldable pub react_to_view_change : Int64 → List SignedViewChangeRequest → Node → Node
  react_to_view_change view certs n =
      let n' = if lt64 n.view view && length certs == f + 1 then send_view_change view n else n in
      if lt64 n'.view view && leb (2 * f + 1) (length certs) && get_view_leader n' == n'.id
      then emit (Effect.go_send_new_view view certs) n'
      else n'

  -- The handler `ViewChange`
  unfoldable pub view_change : SignedViewChangeRequest → Node → Result (Unit {0}) × Node
  view_change req n =
      let r = req.view_change_request in
      let certs = n.view_change_certs r.view ++ req ∷ [] in
      elim (verify_ignoring r.node_id (Message.view_change r) req.signature n) [
        | ok done ↦ (
          ok tt,
          react_to_view_change r.view certs
              (record n { view_change_certs = assign r.view certs n.view_change_certs }),
        )
        | err text ↦ (err text, n)
        | panic ↦ (panic, n)
      ]

  -- What a node takes over from a new view that it has accepted.
  unfoldable pub adopt_new_view : NewViewRequest → Node → Node
  adopt_new_view r n = record n {
    view_changing = false;
    view = r.view;
    new_view_certs = n.new_view_certs ++ r ∷ [];
    last_stable = r.latest_stable_checkpoint;
    seq = seq_after r;
    executor_seq = add64 r.latest_stable_checkpoint 1;
  }

  -- `NewView` behind the signature. A failed check of the checkpoint is no error to the sender.
  unfoldable pub accept_new_view : NewViewRequest → Node → Option (Result (Unit {0}) × Node)
  accept_new_view r n = elim (validate_view_change_certs r.view_change_certs n) [
    | none ↦ none
    | some (res, n') ↦ elim res [
      | err text ↦ some (err text, n')
      | panic ↦ some (panic, n')
      | ok done ↦
          elim (validate_checkpoint_certs r.latest_stable_checkpoint r.checkpoint_certs
            (convert_proto_balances_to_map r.balances) n') [
              | none ↦ none
              | some (res', n'') ↦ elim res' [
                | ok done ↦ some (ok tt, adopt_new_view r n'')
                | err text ↦ some (ok tt, n'')
                | panic ↦ some (panic, n'')
              ]
            ]
    ]
  ]

  -- The handler `NewView`: the signature is checked under the key of the present view's leader.
  unfoldable pub new_view : SignedNewViewRequest → Node → Option (Result (Unit {0}) × Node)
  new_view req n =
      let n' = record n { tmr = stop n.tmr } in
      let checked = do
        key ← get_public_key (get_view_leader n') n'
        verify_signature key (Message.new_view req.new_view) req.signature
      in elim checked [
        | ok done ↦ accept_new_view req.new_view n'
        | err text ↦ some (err text, n')
        | panic ↦ some (panic, n')
      ]

  -- One round of `startMonitoringTimer` in which the timer has expired.
  unfoldable pub on_timer : Node → Node
  on_timer n =
      emit
        (Effect.go_send_view_change (add64 (if n.view_changing then n.new_view_num else n.view) 1))
        n

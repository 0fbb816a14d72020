-- ===== src/Node/ViewChange.antt =====
-- View changes: sendViewChange and sendNewView of node/operations.go.
pub mod Handlers
pub mod Rounds
pub mod Sorted
pub mod Successor
pub mod Gathering
pub mod Renewal
use pbft_2pc.Prelude.{
  ℕ, zero, suc, String, string_eq, nat_eq, Int64, add64, lt64, le64, max64, bias, Bool, true, false,
  not, Option, none, some, List, [], ◌∷◌, ◌++◌, map, length, leb, last?, is_empty, assign, Table,
  ◌==◌, if◌then◌else◌, ◌&&◌, ◌||◌, ◌+◌, ◌-◌, ◌*◌, Result, ok, err, panic, value_or, or_panic, ◌>>=◌,
}
use pbft_2pc.Messages.{
  Bytes, SignedCheckpointRequest, BalanceStructList, PrePrepare, PrePrepareRequest,
  PreparedMessages, ViewChangeRequest, SignedViewChangeRequest, NewViewRequest,
  SignedNewViewRequest, Message,
}
use pbft_2pc.Config.{f}
use pbft_2pc.Deps.{Bolt, Codec, Crypto, PrivateKey}
use pbft_2pc.Cryptox.{sign_message, verify_signature}
use pbft_2pc.Timer.{stop}
use pbft_2pc.Node.{Node, CheckpointData, Effect, emit, emit_all}
use pbft_2pc.Node.Log.{get_public_key, get_view_leader}
use pbft_2pc.Node.Certs.{verify_ignoring}
use pbft_2pc.Node.Checkpoints.{
  convert_balances_to_proto, convert_proto_balances_to_map, validate_checkpoint_certs,
}

-- `sort.Slice` on sequence numbers
unfoldable pub insert_seq : Int64 → List Int64 → List Int64
insert_seq a [] = a ∷ []
insert_seq a (b ∷ bs) = if le64 a b then a ∷ b ∷ bs else b ∷ insert_seq a bs

unfoldable pub sort_seqs : List Int64 → List Int64
sort_seqs [] = []
sort_seqs (a ∷ as') = insert_seq a (sort_seqs as')

-- The latest stable checkpoint that some view change message reports, with its balances and
-- certificates: the loop over the messages from the values before it.
unfoldable pub latest_checkpoint :
    Int64 × BalanceStructList × List SignedCheckpointRequest
    → List SignedViewChangeRequest
    → Int64 × BalanceStructList × List SignedCheckpointRequest
latest_checkpoint acc [] = acc
latest_checkpoint acc (c ∷ cs) =
    let r = c.view_change_request in
    latest_checkpoint
      (if lt64 acc.0 r.last_stable_checkpoint
        then (r.last_stable_checkpoint, r.balances, r.checkpoint_certs)
        else acc)
      cs

-- The map `prePrepares` and the list `prepSeqs` of `sendNewView`: for each sequence number the first
-- prepared request that a message reports.
abbrev pub Gathered : Type 0
Gathered = Table Int64 PrePrepareRequest × List Int64

unfoldable pub gather_one : PrePrepareRequest → Gathered → Gathered
gather_one p (m, seqs) = elim (m p.pre_prepare.sequence) [
  | none ↦ (assign p.pre_prepare.sequence (some p) m, seqs ++ p.pre_prepare.sequence ∷ [])
  | some known ↦ (m, seqs)
]

unfoldable pub gather : List PreparedMessages → Gathered → Result Gathered
gather [] g = ok g
gather (p ∷ ps) g = elim p.pre_prepare [ none ↦ panic | some q ↦ gather ps (gather_one q g) ]

unfoldable pub gather_all : List SignedViewChangeRequest → Gathered → Result Gathered
gather_all [] g = ok g
gather_all (c ∷ cs) g = gather c.view_change_request.prepared g >>= λ g'. gather_all cs g'

module _ ⦃crypto : Crypto⦄ where
  -- The pre-prepare of the new view for one number: the digest of the prepared request, or "".
  unfoldable pub renew_pre_prepare :
      PrivateKey → Int64 → Int64 → Option PrePrepareRequest → PrePrepareRequest
  renew_pre_prepare key view i p =
      let pp : PrePrepare = record {
        view = view;
        sequence = i;
        digest = elim p [ none ↦ "" | some q ↦ q.pre_prepare.digest ];
        status = "";
      } in
      record {
        pre_prepare = pp;
        signature = value_or (sign_message key (Message.pre_prepare pp)) [];
        client_req = none;
      }

  -- `for i := i; i <= prepSeqs[len(prepSeqs)-1]; i++`, with the number of rounds left
  unfoldable pub renew_from :
      ℕ → PrivateKey → Int64 → Int64 → Table Int64 PrePrepareRequest → List PrePrepareRequest
  renew_from zero key view i m = []
  renew_from (suc k) key view i m =
      renew_pre_prepare key view i (m i) ∷ renew_from k key view (add64 i 1) m

  unfoldable pub renew_all :
      PrivateKey → Int64 → List Int64 → Table Int64 PrePrepareRequest → List PrePrepareRequest
  renew_all key view [] m = []
  renew_all key view (a ∷ seqs) m =
      renew_from (bias (elim (last? (a ∷ seqs)) [ none ↦ a | some b ↦ b ]) + 1 - bias a) key view a
        m

module _ ⦃bolt : Bolt⦄ where
  -- `for i := i; i <= node.MaxSeq; i++`: the requests that are at least prepared.
  unfoldable pub prepared_from : ℕ → Int64 → Node → List PreparedMessages
  prepared_from zero i n = []
  prepared_from (suc k) i n =
      let rest = prepared_from k (add64 i 1) n in
      elim (n.transaction_log i) [
        | none ↦ rest
        | some entry ↦
            if not (lt64 entry.state 2)
            then record { pre_prepare = n.pre_prepares i; certs = n.prepare_certs i } ∷ rest
            else rest
      ]

  unfoldable pub prepared_messages : Node → List PreparedMessages
  prepared_messages n =
      prepared_from (bias n.max_seq + 1 - bias (add64 n.last_stable 1)) (add64 n.last_stable 1) n

  -- `node.CheckpointCerts[node.LastStable]`, or the zero value
  unfoldable pub stable_checkpoint : Node → CheckpointData
  stable_checkpoint n = elim (n.checkpoint_certs n.last_stable) [
    | none ↦ record { stable = false; digest = ""; balances = []; certs = []; waiting = [] }
    | some c ↦ c
  ]

module _ ⦃bolt : Bolt⦄ ⦃crypto : Crypto⦄ where
  unfoldable pub view_change_request : Int64 → Node → SignedViewChangeRequest
  view_change_request view n =
      let r : ViewChangeRequest = record {
        view = view;
        last_stable_checkpoint = n.last_stable;
        checkpoint_certs = (stable_checkpoint n).certs;
        prepared = prepared_messages n;
        node_id = n.id;
        balances = convert_balances_to_proto (stable_checkpoint n).balances;
      } in
      record {
        view_change_request = r;
        signature = value_or (sign_message n.private_key (Message.view_change r)) [];
      }

  -- Does `sendViewChange` return at once?
  unfoldable pub skips_view_change : Int64 → Node → Bool
  skips_view_change view n =
      not n.live || le64 view n.view || (n.view_changing && le64 view n.new_view_num)

  unfoldable pub send_view_change : Int64 → Node → Node
  send_view_change view n =
      let req = view_change_request view n in
      let sent = record n {
        tmr = stop n.tmr;
        view_changing = true;
        new_view_num = view;
        view_change_certs = assign view (n.view_change_certs view ++ req ∷ []) n.view_change_certs;
      } in
      if skips_view_change view n
      then n
      else emit_all (map (λ p. Effect.send_view_change p req) (n.client_map n.cluster_id)) sent

  unfoldable pub skips_new_view : Int64 → Node → Bool
  skips_new_view view n = not n.live || n.byzantine || n.new_views_sent view

  -- The new view message, from the gathered requests with their numbers sorted.
  unfoldable pub new_view_request :
      Int64
      → List SignedViewChangeRequest
      → Table Int64 PrePrepareRequest
      → List Int64
      → Node
      → SignedNewViewRequest
  new_view_request view certs m seqs n =
      let (stable, balances, checkpoint_certs) =
        latest_checkpoint (0, convert_balances_to_proto n.last_stable_balances, []) certs in
      let r : NewViewRequest = record {
        view = view;
        view_change_certs = certs;
        prepared = renew_all n.private_key view seqs m;
        balances = balances;
        latest_stable_checkpoint = stable;
        checkpoint_certs = checkpoint_certs;
      } in
      record {
        new_view = r;
        signature = value_or (sign_message n.private_key (Message.new_view r)) [];
      }

  -- `node.Seq` after a new view: behind its last pre-prepare, or behind its checkpoint.
  unfoldable pub seq_after : NewViewRequest → Int64
  seq_after r = elim (last? r.prepared) [
    | none ↦ add64 r.latest_stable_checkpoint 1
    | some p ↦ add64 p.pre_prepare.sequence 1
  ]

  unfoldable pub enter_new_view : SignedNewViewRequest → List Int64 → Node → Node
  enter_new_view req seqs n =
      let r = req.new_view in
      emit_all (map (λ p. Effect.send_new_view p req) (n.client_map n.cluster_id)) (record n {
        view = r.view;
        new_views_sent = assign r.view true n.new_views_sent;
        seq = elim (last? seqs) [ none ↦ seq_after r | some b ↦ add64 b 1 ];
        executor_seq = add64 r.latest_stable_checkpoint 1;
        view_changing = false;
        tmr = stop n.tmr;
      })

  unfoldable pub send_new_view : Int64 → List SignedViewChangeRequest → Node → Result Node
  send_new_view view certs n =
      if skips_new_view view n
      then ok n
      else (gather_all certs ((λ _. none), []) >>= λ g.
          (let seqs = sort_seqs g.1 in
            ok (enter_new_view (new_view_request view certs g.0 seqs n) seqs n)))

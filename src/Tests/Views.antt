-- ===== src/Tests/Views.antt =====
-- S1 sends the new view 2 after a message that reports one prepared request.
use pbft_2pc.Prelude.{
  ◌++◌, string_eq, nat_eq, list_eq, some, [], ◌∷◌, map, Result, ok, err, panic, ◌≡◌, refl, inl,
  arith, All,
}
use pbft_2pc.Messages.{PrePrepareRequest, SignedViewChangeRequest, SignedNewViewRequest}
use pbft_2pc.Instances.{list_bolt, decimal_codec, toy_crypto, plain_format}
use pbft_2pc.Node.{Node, Effect, new_node, emit_all}
use pbft_2pc.Node.ViewChange.{
  insert_seq, sort_seqs, latest_checkpoint, gather_one, gather, gather_all, skips_new_view,
  new_view_request, enter_new_view, send_new_view,
}
use pbft_2pc.Node.ViewChange.Gathering.{IsIn}
use pbft_2pc.Node.ViewChange.Renewal.{IsBare, send_new_view_keeps}
use pbft_2pc.Node.ViewChange.Handlers.{adopt_new_view}
use pbft_2pc.Node.ViewChange.Successor.{new_view_agrees}
use pbft_2pc.Node.Menu.{print_new_views}
use pbft_2pc.Node.Menu.NewViews.{print_new_views-send_new_view}
use pbft_2pc.Tests.Data.{start_node, proposal}

abbrev report : SignedViewChangeRequest
report = record {
  view_change_request = record {
    view = 2;
    last_stable_checkpoint = 0;
    checkpoint_certs = [];
    prepared = record { pre_prepare = some (proposal "5"); certs = [] } ∷ [];
    node_id = "S2";
    balances = [];
  };
  signature = [];
}

-- The node that a call leaves, or the one before it.
abbrev after : Result Node → Node
after (ok n) = n
after (err e) = start_node "S1"
after panic = start_node "S1"

abbrev new_leader : Node
new_leader = after (send_new_view 2 (report ∷ []) (start_node "S1"))

sends : send_new_view 2 (report ∷ []) (start_node "S1") ≡ ok new_leader
unfolding new_node gather_one gather gather_all skips_new_view send_new_view
sends = refl

send_new_view_keeps_example :
    (req : SignedNewViewRequest) × (new_leader.outbox
      ≡ (start_node "S1").outbox
        ++ map
            (λ q. Effect.send_new_view q req)
            ((start_node "S1").client_map (start_node "S1").cluster_id))
    × (new_leader.view ≡ 2)
    × ((r : PrePrepareRequest) × IsIn r req.new_view.prepared
        × (r.pre_prepare.view ≡ 2)
        × (r.pre_prepare.sequence ≡ 1)
        × (r.pre_prepare.digest ≡ "5"))
    × All IsBare req.new_view.prepared
unfolding new_node skips_new_view
send_new_view_keeps_example =
    send_new_view_keeps (λ s. "5") 2 (report ∷ []) (start_node "S1") new_leader (proposal "5") refl
      ((refl, ground arith), tt) (inl refl) sends

print_new_views-send_new_view_example :
    (req : SignedNewViewRequest) × (new_leader.outbox
      ≡ (start_node "S1").outbox
        ++ map
            (λ q. Effect.send_new_view q req)
            ((start_node "S1").client_map (start_node "S1").cluster_id))
    × ((k : Node) → print_new_views (adopt_new_view req.new_view k) ≡ panic)
unfolding new_node skips_new_view
print_new_views-send_new_view_example =
    print_new_views-send_new_view (λ s. "5") 2 (report ∷ []) (start_node "S1") new_leader
      (proposal "5") refl ((refl, ground arith), tt) (inl refl) sends

new_view_agrees_example :
    (req : SignedNewViewRequest) × (new_leader.outbox
      ≡ (start_node "S1").outbox
        ++ map
            (λ q. Effect.send_new_view q req)
            ((start_node "S1").client_map (start_node "S1").cluster_id))
    × ((k : Node)
        → ((adopt_new_view req.new_view k).view ≡ 2)
          × ((adopt_new_view req.new_view k).seq ≡ 2)
          × ((adopt_new_view req.new_view k).executor_seq ≡ 1))
unfolding new_node skips_new_view send_new_view gather_all gather enter_new_view emit_all
    new_view_request sort_seqs gather_one latest_checkpoint insert_seq
new_view_agrees_example =
    new_view_agrees 2 (report ∷ []) (start_node "S1") new_leader refl (ground arith, tt) sends

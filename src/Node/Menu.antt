-- ===== src/Node/Menu.antt =====
-- The menu of a node: the loop of Start of node/node.go, and printLog, printNewViews and
-- printCheckpoints of node/utils.go, as the lines that they print.
pub mod NewViews
use pbft_2pc.Prelude.{
  String, string_eq, nat_eq, Int64, add64, Bool, true, false, Option, none, some, List, [], ◌∷◌,
  ◌++◌, ◌==◌, ◌||◌, if◌then◌else◌, Result, ok, err, panic, ◌>>=◌, or_panic,
}
use pbft_2pc.Config.{int_to_states}
use pbft_2pc.Messages.{
  PrePrepareRequest, SignedCheckpointRequest, SignedViewChangeRequest, NewViewRequest,
}
use pbft_2pc.Deps.{Bolt, Codec, Format}
use pbft_2pc.Node.{Node, CheckpointData, TransactionLog}
use pbft_2pc.Node.Report.{concat, print_all_certs}
use pbft_2pc.Node.ViewChange.{sort_seqs}

module _ ⦃codec : Codec⦄ ⦃format : Format⦄ where
  unfoldable pub print_log_line : Int64 → TransactionLog → String
  print_log_line seq e = concat (
      "Seq: "
      ∷ codec.format_int seq
      ∷ " "
      ∷ format.show_transaction e.transaction
      ∷ " State: "
      ∷ int_to_states e.state
      ∷ " View: "
      ∷ codec.format_int e.view
      ∷ " Timestamp: "
      ∷ codec.format_int e.timestamp
      ∷ "\n"
      ∷ [])

  -- The view change messages of a new view, from a place on
  unfoldable pub cert_lines : Int64 → List SignedViewChangeRequest → List String
  cert_lines i [] = []
  cert_lines i (c ∷ cs) =
      concat (
        codec.format_int i
        ∷ ". From: "
        ∷ c.view_change_request.node_id
        ∷ " Checkpoint certs: "
        ∷ format.show_checkpoint_certs c.view_change_request.checkpoint_certs
        ∷ "\n"
        ∷ [])
      ∷ cert_lines (add64 i 1) cs

  -- The pre-prepares of a new view, each with the client's request, which is dereferenced
  unfoldable pub prepared_lines : Int64 → List PrePrepareRequest → Result (List String)
  prepared_lines i [] = ok []
  prepared_lines i (p ∷ ps) = do
    req ← or_panic p.client_req
    rest ← prepared_lines (add64 i 1) ps
    ok (
        concat (
          codec.format_int i
          ∷ ". Pre-prepare: "
          ∷ format.show_pre_prepare p.pre_prepare
          ∷ "\n Client message: "
          ∷ format.show_client_request req.client_request
          ∷ "\n"
          ∷ [])
        ∷ rest)

  unfoldable pub new_view_lines : NewViewRequest → Result (List String)
  unfolding cert_lines prepared_lines
  new_view_lines r = do
    prepared ← prepared_lines 1 r.prepared
    ok (
        concat ("New view message for view: " ∷ codec.format_int r.view ∷ "\n" ∷ [])
          ∷ "View Change certs\n"
          ∷ cert_lines 1 r.view_change_certs
        ++ "Prepared logs\n" ∷ prepared
        ++ concat
            ("Latest stable checkpoint: " ∷ codec.format_int r.latest_stable_checkpoint ∷ "\n" ∷ [])
          ∷ [])

  -- The loop of `printNewViews`. The process ends at a nil dereference, whatever it has printed by then.
  unfoldable pub new_views_lines : List NewViewRequest → Result (List String)
  unfolding new_view_lines
  new_views_lines [] = ok []
  new_views_lines (r ∷ rs) = do
    first ← new_view_lines r
    rest ← new_views_lines rs
    ok (first ++ rest)

  -- The certificates of one checkpoint, from a place on
  unfoldable pub checkpoint_lines : Int64 → List SignedCheckpointRequest → List String
  checkpoint_lines i [] = []
  checkpoint_lines i (c ∷ cs) =
      concat (codec.format_int i ∷ ". " ∷ format.show_checkpoint c.checkpoint ∷ "\n" ∷ [])
      ∷ checkpoint_lines (add64 i 1) cs

  unfoldable pub print_checkpoint : Int64 → CheckpointData → List String
  unfolding checkpoint_lines
  print_checkpoint seq c =
      concat (
        "Seq: "
        ∷ codec.format_int seq
        ∷ ", Stable: "
        ∷ (if c.stable then "true" else "false")
        ∷ "\n"
        ∷ [])
      ∷ "Checkpoint certificates:\n"
      ∷ checkpoint_lines 1 c.certs

-- What a choice of the menu does.
pub data Chosen : Type 0 where
  -- it prints some lines, and the loop goes on
  printed : List String → Chosen
  -- the connections are closed, and the loop ends
  left : Chosen

module _ ⦃bolt : Bolt⦄ ⦃codec : Codec⦄ ⦃format : Format⦄ where
  -- The loop of `printLog` over sorted keys
  unfoldable pub print_log : List Int64 → Node → Result (List String)
  unfolding print_log_line
  print_log [] n = ok []
  print_log (seq ∷ seqs) n = do
    e ← or_panic (n.transaction_log seq)
    rest ← print_log seqs n
    ok (print_log_line seq e ∷ rest)

  unfoldable pub print_new_views : Node → Result (List String)
  unfolding new_views_lines
  print_new_views n = new_views_lines n.new_view_certs

  -- `printCheckpoints`: `seqs` are the keys of the map, in the order of the range.
  unfoldable pub print_checkpoints : List Int64 → Node → List String
  unfolding print_checkpoint
  print_checkpoints [] n = []
  print_checkpoints (seq ∷ seqs) n =
      let rest = print_checkpoints seqs n in
      if seq == 0
      then rest
      else elim (n.checkpoint_certs seq) [ none ↦ rest | some c ↦ print_checkpoint seq c ++ rest ]

  -- One round of the loop of `Start`, with the keys of the three maps in the order of their ranges.
  unfoldable pub choose : String → List Int64 → List Int64 → List Int64 → Node → Result Chosen
  unfolding print_log print_new_views print_checkpoints print_all_certs sort_seqs
  choose input pre_prepares logged checkpoints n =
      if input == "2"
      then (print_new_views n >>= λ lines. ok (printed lines))
      else if input == "3"
      then ok (printed (print_all_certs pre_prepares n))
      else if input == "4"
      then (print_log (sort_seqs logged) n >>= λ lines. ok (printed lines))
      else if input == "7"
      then ok (printed (print_checkpoints checkpoints n))
      else if input == "0" || input == "exit" || input == ";"
      then ok left
      else ok (printed ("Invalid option. Please choose again.\n" ∷ []))

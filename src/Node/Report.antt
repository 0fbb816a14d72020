-- ===== src/Node/Report.antt =====
-- What a node tells about its log: the handler GetTransactionLog of node/rpc.go, and printPrePrepare,
-- printPrepareCerts, printCommitCerts and printAllCerts of node/utils.go, as the lines of their text.
use Prim.Native.String.{◌++◌ as string_append}
use pbft_2pc.Prelude.{
  String, string_eq, nat_eq, Int64, add64, none, some, List, [], ◌∷◌, ◌++◌, length, leb, is_empty,
  if◌then◌else◌, ◌*◌, Result, ok, ◌>>=◌, or_panic,
}
use pbft_2pc.Config.{f, int_to_states}
use pbft_2pc.Messages.{PrepareRequest, CommitRequest}
use pbft_2pc.Deps.{Bolt, Codec}
use pbft_2pc.Node.{Node, TransactionLog}
use pbft_2pc.Node.Log.{get_view_leader}
use pbft_2pc.Node.ViewChange.{sort_seqs}

-- `fmt.Sprintf` of texts and numbers in a row
abbrev pub concat : List String → String
concat [] = ""
concat (s ∷ ss) = string_append s (concat ss)

module _ ⦃codec : Codec⦄ where
  -- One line of `GetTransactionLog`.
  unfoldable pub log_line : Int64 → TransactionLog → String
  log_line seq e = concat (
      "Seq: "
      ∷ codec.format_int seq
      ∷ " ("
      ∷ e.transaction.from
      ∷ ", "
      ∷ e.transaction.to
      ∷ ", "
      ∷ codec.format_int e.transaction.amount
      ∷ ") State: "
      ∷ int_to_states e.state
      ∷ " View: "
      ∷ codec.format_int e.view
      ∷ " Timestamp: "
      ∷ codec.format_int e.timestamp
      ∷ "\n"
      ∷ [])

  -- A certificate with its place in the list.
  unfoldable pub cert_line : Int64 → Int64 → Int64 → String → String → String
  cert_line place view sequence from digest = concat (
      codec.format_int place
      ∷ ": View: "
      ∷ codec.format_int view
      ∷ " Sequence: "
      ∷ codec.format_int sequence
      ∷ " From: "
      ∷ from
      ∷ " Digest: "
      ∷ digest
      ∷ "\n"
      ∷ [])

  -- `for i, cert := range …`, from a place on
  unfoldable pub prepare_lines : Int64 → List PrepareRequest → List String
  unfolding cert_line
  prepare_lines i [] = []
  prepare_lines i (c ∷ cs) =
      let p = c.prepare in
      cert_line i p.view p.sequence p.node_id p.digest ∷ prepare_lines (add64 i 1) cs

  unfoldable pub commit_lines : Int64 → List CommitRequest → List String
  unfolding cert_line
  commit_lines i [] = []
  commit_lines i (c ∷ cs) =
      let p = c.commit in
      cert_line i p.view p.sequence p.node_id p.digest ∷ commit_lines (add64 i 1) cs

module _ ⦃bolt : Bolt⦄ ⦃codec : Codec⦄ where
  -- The loop of `GetTransactionLog`; a number without an entry would be a nil dereference.
  unfoldable pub log_text : List Int64 → Node → Result String
  unfolding log_line
  log_text [] n = ok ""
  log_text (seq ∷ seqs) n = do
    e ← or_panic (n.transaction_log seq)
    rest ← log_text seqs n
    ok (string_append (log_line seq e) rest)

  -- The handler `GetTransactionLog`: `seqs` are the keys of the map, in the order of the range.
  unfoldable pub get_transaction_log : List Int64 → Node → Result String
  unfolding log_text sort_seqs
  get_transaction_log seqs n = log_text (sort_seqs seqs) n

  unfoldable pub print_pre_prepare : Int64 → Node → List String
  print_pre_prepare seq n = elim (n.pre_prepares seq) [
    | none ↦ concat ("No pre-prepare for seq: " ∷ codec.format_int seq ∷ "\n" ∷ []) ∷ []
    | some p ↦
        "Pre-Prepare: "
        ∷ concat (
            "Seq: "
            ∷ codec.format_int p.pre_prepare.sequence
            ∷ " View: "
            ∷ codec.format_int p.pre_prepare.view
            ∷ " Digest: "
            ∷ p.pre_prepare.digest
            ∷ "\n"
            ∷ [])
        ∷ []
  ]

  unfoldable pub print_prepare_certs : Int64 → Node → List String
  unfolding prepare_lines
  print_prepare_certs seq n =
      let certs = n.prepare_certs seq in
      if is_empty certs
      then concat ("No prepares for " ∷ codec.format_int seq ∷ "\n" ∷ []) ∷ []
      else concat ("Prepares received for sequence number " ∷ codec.format_int seq ∷ "\n" ∷ [])
        ∷ (prepare_lines 1 certs ++ "\n" ∷ [])

  -- With 3f prepares or more these are listed as commits, behind one of the leader with the fields of
  -- the first of them.
  unfoldable pub leader_lines : List PrepareRequest → Node → List String
  unfolding cert_line
  leader_lines [] n = []
  leader_lines (c ∷ cs) n =
      cert_line 1 c.prepare.view c.prepare.sequence (get_view_leader n) c.prepare.digest ∷ []

  unfoldable pub print_commit_certs : Int64 → Node → List String
  unfolding prepare_lines commit_lines leader_lines
  print_commit_certs seq n =
      let prepares = n.prepare_certs seq in
      let commits = n.commit_certs seq in
      concat ("Commits received for sequence number: " ∷ codec.format_int seq ∷ "\n" ∷ [])
      ∷ (if leb (3 * f) (length prepares)
          then leader_lines prepares n ++ prepare_lines 2 prepares ++ "\n" ∷ []
          else if is_empty commits
          then concat ("No commits for " ∷ codec.format_int seq ∷ "\n" ∷ []) ∷ "\n" ∷ []
          else commit_lines 1 commits ++ "\n" ∷ [])

  unfoldable pub print_certs_of : List Int64 → Node → List String
  unfolding print_pre_prepare print_prepare_certs print_commit_certs
  print_certs_of [] n = []
  print_certs_of (seq ∷ seqs) n =
      print_pre_prepare seq n
      ++ print_prepare_certs seq n
      ++ print_commit_certs seq n
      ++ print_certs_of seqs n

  -- `printAllCerts`: `seqs` are the numbers that have a pre-prepare.
  unfoldable pub print_all_certs : List Int64 → Node → List String
  unfolding print_certs_of sort_seqs
  print_all_certs seqs n = print_certs_of (sort_seqs seqs) n

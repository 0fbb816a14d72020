-- ===== src/Node/Certs/Quorum.antt =====
-- When a request is prepared and when it is committed, and what the node records of it.
use pbft_2pc.Prelude.{
  ap, assign, ◌++◌, ℕ, String, nat_eq, string_eq, Int64, ◌≤◌, ◌≡◌, ◌≢◌, ◌⊎◌, refl, Option, none,
  some, Bool, true, false, not, ◌==◌, ◌&&◌, if◌then◌else◌, List, [], ◌∷◌, select, length, lt64,
  Option-cases, Bool-cases, inl, inr, arith, leb, leb→le,
}
use pbft_2pc.Config.{states}
use pbft_2pc.Messages.{Transaction, CommitRequest, Message}
use pbft_2pc.Deps.{Bolt, Codec, Crypto}
use pbft_2pc.Node.{Node, TransactionLog, DbUnit, Effect, emit}
use pbft_2pc.Node.Log.{advance}
use pbft_2pc.Node.Log.Order.{update_log_self, update_log-datastore}
use pbft_2pc.Node.Certs.{
  is_signed_by, is_valid_commit, get_valid_commit_certs, validate_commits, commit_entry,
  save_transaction_to_datastore, db_unit,
}

module _ ⦃bolt : Bolt⦄ ⦃crypto : Crypto⦄ where
  -- Is a commit signed by the node that it names, and for the digest of the entry?
  abbrev pub certifies : TransactionLog → Node → CommitRequest → Bool
  certifies e n c =
      is_signed_by c.commit.node_id (Message.commit c.commit) c.signature n
      && e.digest == c.commit.digest

  -- Is an entry of the log at least prepared?
  abbrev pub is_prepared : TransactionLog → Bool
  is_prepared e = not (lt64 e.state (states "prepared"))

  select-is_valid_commit :
      (e : TransactionLog) (n : Node) (cs : List CommitRequest)
      → select (is_valid_commit e n) cs ≡ (if is_prepared e then select (certifies e n) cs else [])
  unfolding is_valid_commit
  select-is_valid_commit e n [] = ground arith
  select-is_valid_commit e n (c ∷ cs) = ground (arith, select-is_valid_commit e n cs)

  -- The number of commits that count for the request at a sequence number.
  abbrev pub votes : Int64 → List CommitRequest → Node → ℕ
  votes seq commits n = elim (n.transaction_log seq) [
    | none ↦ 0
    | some e ↦ if is_prepared e then length (select (certifies e n) commits) else 0
  ]

  length-get_valid_commit_certs :
      (seq : Int64) (commits : List CommitRequest) (n : Node)
      → length (get_valid_commit_certs seq commits n) ≡ votes seq commits n
  unfolding get_valid_commit_certs
  length-get_valid_commit_certs seq commits n = elim (Option-cases (n.transaction_log seq)) [
    | inl missing ↦ ground (arith, missing)
    | inr (e, found) ↦ ground (arith, found, select-is_valid_commit e n commits)
  ]

module _ ⦃bolt : Bolt⦄ ⦃codec : Codec⦄ ⦃crypto : Crypto⦄ where
  -- A list of commits commits the request at a sequence number exactly if the log has an entry there
  -- that is at least prepared, and three or more elements of the list are signed by the node that they
  -- name and carry the digest of the entry.
  pub validate_commits_iff :
      (seq : Int64) (commits : List CommitRequest) (status : String) (client_seq : Int64)
      (t : Transaction) (n : Node)
      → (validate_commits seq commits status client_seq t n).0 ≡ leb 3 (votes seq commits n)
  unfolding validate_commits
  validate_commits_iff seq commits status client_seq t n =
      ground (arith, length-get_valid_commit_certs seq commits n)

  pub commit_entry_lem :
      (seq : Int64) (status : String) (client_seq : Int64) (t : Transaction) (n : Node)
      (e : TransactionLog)
      → n.transaction_log seq ≡ some e
      → let n' = commit_entry seq status client_seq t n in
        (n'.transaction_log seq ≡ some (advance "committed" e))
        × (n'.datastore seq
            ≡ some (record {
              seq = seq;
              transaction = some e.transaction;
              status = status;
              timestamp = e.timestamp;
              client_seq = client_seq;
            }))
        × ((j : Int64) → seq ≢ j → n'.datastore j ≡ n.datastore j)
  unfolding commit_entry save_transaction_to_datastore db_unit advance
  commit_entry_lem seq status client_seq t n e h =
      let now = update_log_self seq "committed" n e h in
      let kept = update_log-datastore seq "committed" n in
      elim (Bool-cases (status == "P")) [
        | inl p ↦
            rw (p, now)
              (
                refl,
                ground arith,
                λ j ne. ground (arith, ne, ap (λ (m : Int64 → Option DbUnit). m j) kept),
              )
        | inr p ↦
            rw (p, now)
              (
                refl,
                ground arith,
                λ j ne. ground (arith, ne, ap (λ (m : Int64 → Option DbUnit). m j) kept),
              )
      ]

  -- Only an entry of the log can be certified.
  pub certified_entry :
      (seq : Int64) (commits : List CommitRequest) (n : Node)
      → leb 3 (length (get_valid_commit_certs seq commits n)) ≡ true
      → (e : TransactionLog) × (n.transaction_log seq ≡ some e)
  unfolding get_valid_commit_certs
  certified_entry seq commits n h = elim (Option-cases (n.transaction_log seq)) [
    | inl missing ↦ absurd (ground (arith, missing))
    | inr found ↦ found
  ]

  -- The state that a successful validation leaves on an honest node.
  abbrev committed_node : Int64 → List CommitRequest → String → Int64 → Transaction → Node → Node
  committed_node seq commits status client_seq t n =
      let n' = commit_entry seq status client_seq t n in
      record n' {
        commit_certs = assign seq (get_valid_commit_certs seq commits n) n'.commit_certs;
        outbox = n'.outbox ++ Effect.go_save_transaction seq status ∷ [];
      }

  validate_commits-eq :
      (seq : Int64) (commits : List CommitRequest) (status : String) (client_seq : Int64)
      (t : Transaction) (n : Node)
      → leb 3 (length (get_valid_commit_certs seq commits n)) ≡ true
      → n.byzantine ≡ false
      → validate_commits seq commits status client_seq t n
        ≡ (true, committed_node seq commits status client_seq t n)
  unfolding validate_commits emit
  validate_commits-eq seq commits status client_seq t n many honest = simp (many, honest)

  -- An unsuccessful validation changes nothing. After a successful one on an honest node the entry is
  -- committed (its other fields are the same), the datastore has the transaction of the log under the
  -- sequence number with the given status and client sequence number and keeps its other units, and
  -- the commits that are kept number three or more.
  pub validate_commits_effect :
      (seq : Int64) (commits : List CommitRequest) (status : String) (client_seq : Int64)
      (t : Transaction) (n : Node)
      → n.byzantine ≡ false
      → let (r, n') = validate_commits seq commits status client_seq t n in
        ((r ≡ false) × (n' ≡ n))
        ⊎ ((e : TransactionLog) × (r ≡ true)
            × (n.transaction_log seq ≡ some e)
            × (n'.transaction_log seq ≡ some (advance "committed" e))
            × (n'.datastore seq
                ≡ some (record {
                  seq = seq;
                  transaction = some e.transaction;
                  status = status;
                  timestamp = e.timestamp;
                  client_seq = client_seq;
                }))
            × ((j : Int64) → (seq ≡ j) ⊎ (n'.datastore j ≡ n.datastore j))
            × (3 ≤ length (n'.commit_certs seq)))
  unfolding validate_commits emit
  validate_commits_effect seq commits status client_seq t n honest =
      elim (Bool-cases (leb 3 (length (get_valid_commit_certs seq commits n)))) [
        | inl many ↦
            let (e, found) = certified_entry seq commits n many in
            let (log, stored, others) = commit_entry_lem seq status client_seq t n e found in
            rw (validate_commits-eq seq commits status client_seq t n many honest) (
              inr (
                e,
                refl,
                found,
                log,
                stored,
                λ j. elim (Bool-cases (seq == j)) [
                  | inl same ↦ inl (ground (arith, same))
                  | inr other ↦ inr (others j (ground (arith, other)))
                ],
                ground (arith, leb→le 3 (length (get_valid_commit_certs seq commits n)) many),
              ))
        | inr few ↦ inl (rw few refl, rw few refl)
      ]

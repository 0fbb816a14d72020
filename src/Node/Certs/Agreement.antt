-- ===== src/Node/Certs/Agreement.antt =====
-- Quorum intersection: two nodes of a cluster that commit at one sequence number.
use pbft_2pc.Prelude.{
  sym, ap, ◌∙◌, ◌≤◌, eq_iff, length-map, String, string_eq, nat_eq, Int64, Bool, true, false, some,
  List, [], ◌∷◌, map, select, length, leb, leb→le, ◌≡◌, ◌⊎◌, refl, inl, inr, arith, All, Distinct,
  contains, count, quorums_meet, contains-map, All-zip, select-All,
}
use pbft_2pc.Messages.{Transaction, CommitRequest}
use pbft_2pc.Deps.{Bolt, Codec, Crypto}
use pbft_2pc.Node.{Node, TransactionLog}
use pbft_2pc.Node.Certs.{is_valid_commit, get_valid_commit_certs, validate_commits}
use pbft_2pc.Node.Certs.Quorum.{certified_entry}

abbrev pub signer : CommitRequest → String
signer c = c.commit.node_id

-- A commit of an honest node carries the digest that this node voted for.
abbrev pub IsAsVoted : (String → Bool) → (String → String) → CommitRequest → Type 0
IsAsVoted bad voted c = (bad (signer c) ≡ true) ⊎ (c.commit.digest ≡ voted (signer c))

-- What an honest signer of one of some commits voted for is the digest that they all have.
digest_as_voted :
    (bad : String → Bool) (voted : String → String) (digest m : String) (certs : List CommitRequest)
    → All (λ c. digest ≡ c.commit.digest) certs
    → All (IsAsVoted bad voted) certs
    → contains (map signer certs) m ≡ true
    → bad m ≡ false
    → digest ≡ voted m
digest_as_voted bad voted digest m certs digests honest member good =
    let both = All-zip (λ c. digest ≡ c.commit.digest) (IsAsVoted bad voted) certs digests honest in
    let (c, signed, (same, vote)) = contains-map _ signer certs m member both in
    elim vote [ inl faulty ↦ absurd (cc) | inr as_voted ↦ same ∙ as_voted ∙ ap voted signed ]

module _ ⦃bolt : Bolt⦄ ⦃codec : Codec⦄ ⦃crypto : Crypto⦄ where
  -- The commits that a node counts at a sequence number come from different members of its cluster,
  -- and those of honest members are as these voted.
  abbrev pub IsVote :
      List String → (String → Bool) → (String → String) → List CommitRequest → Type 0
  IsVote members bad voted certs =
      Distinct (map signer certs)
      × All (λ v. contains members v ≡ true) (map signer certs)
      × All (IsAsVoted bad voted) certs

  get_valid_commit_certs-eq :
      (seq : Int64) (commits : List CommitRequest) (n : Node) (e : TransactionLog)
      → n.transaction_log seq ≡ some e
      → get_valid_commit_certs seq commits n ≡ select (is_valid_commit e n) commits
  unfolding get_valid_commit_certs
  get_valid_commit_certs-eq seq commits n e found = rw (found, get_valid_commit_certs) refl

  valid_digests :
      (e : TransactionLog) (n : Node) (certs : List CommitRequest)
      → All (λ c. is_valid_commit e n c ≡ true) certs
      → All (λ c. e.digest ≡ c.commit.digest) certs
  unfolding is_valid_commit
  valid_digests e n [] valid = tt
  valid_digests e n (c ∷ certs) (here, later) =
      (ground (arith, here, eq_iff e.digest c.commit.digest), valid_digests e n certs later)

  many_valid :
      (seq : Int64) (commits : List CommitRequest) (status : String) (client_seq : Int64)
      (t : Transaction) (n : Node)
      → (validate_commits seq commits status client_seq t n).0 ≡ true
      → leb 3 (length (get_valid_commit_certs seq commits n)) ≡ true
  unfolding validate_commits
  many_valid seq commits status client_seq t n h = ground arith

  -- A quorum of commits is one for an entry of the log, whose digest each of them has.
  certified :
      (seq : Int64) (commits : List CommitRequest) (n : Node)
      → leb 3 (length (get_valid_commit_certs seq commits n)) ≡ true
      → (e : TransactionLog) × (n.transaction_log seq ≡ some e)
        × All (λ c. e.digest ≡ c.commit.digest) (get_valid_commit_certs seq commits n)
  certified seq commits n many =
      let (e, found) = certified_entry seq commits n many in
      (
        e,
        found,
        rw (get_valid_commit_certs-eq seq commits n e found)
            (valid_digests e n _ (select-All (is_valid_commit e n) commits)),
      )

  -- If two nodes of a cluster of at most four members, of which at most one is Byzantine, each validate
  -- a list of commits for one sequence number, where the commits that each of them counts come from
  -- different members and those of the honest members carry the one digest for which the member
  -- voted, then the entries that the two nodes commit have the same digest.
  pub validate_commits_agree :
      (members : List String) (bad : String → Bool) (voted : String → String) (seq : Int64)
      (commits commits' : List CommitRequest) (status status' : String)
      (client_seq client_seq' : Int64) (t t' : Transaction) (n n' : Node)
      → length members ≤ 4
      → count bad members ≤ 1
      → IsVote members bad voted (get_valid_commit_certs seq commits n)
      → IsVote members bad voted (get_valid_commit_certs seq commits' n')
      → (validate_commits seq commits status client_seq t n).0 ≡ true
      → (validate_commits seq commits' status' client_seq' t' n').0 ≡ true
      → (e : TransactionLog) × (e' : TransactionLog) × (n.transaction_log seq ≡ some e)
        × (n'.transaction_log seq ≡ some e')
        × (e.digest ≡ e'.digest)
  validate_commits_agree members bad voted seq commits commits' status status' client_seq
        client_seq' t t' n n' four one (distinct, known, honest) (distinct', known', honest') h h' =
      let certs = get_valid_commit_certs seq commits n in
      let certs' = get_valid_commit_certs seq commits' n' in
      let many = many_valid seq commits status client_seq t n h in
      let many' = many_valid seq commits' status' client_seq' t' n' h' in
      let (e, found, digests) = certified seq commits n many in
      let (e', found', digests') = certified seq commits' n' many' in
      let (m, member, member', good) =
        quorums_meet bad members (map signer certs) (map signer certs') four one
          (rw (length-map signer certs) (leb→le 3 (length certs) many))
          (rw (length-map signer certs') (leb→le 3 (length certs') many')) distinct distinct' known
          known' in
      let vote = digest_as_voted bad voted e.digest m certs digests honest member good in
      let vote' = digest_as_voted bad voted e'.digest m certs' digests' honest' member' good in
      (e, e', found, found', vote ∙ sym vote')

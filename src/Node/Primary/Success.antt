-- ===== src/Node/Primary/Success.antt =====
-- What a successful PBFT round has done on an honest leader.
use mathlib.Core.Option.{some-injective}
use mathlib.Core.Path.{subst}
use pbft_2pc.Prelude.{
  ap, sym, ◌∙◌, ◌+◌, ◌*◌, ◌≤◌, String, string_eq, nat_eq, Int64, true, false, Option, none, some,
  List, [], assign, length, Result, ok, err, panic, ◌≡◌, refl, inl, inr, arith, Bool-cases,
  Option-cases, ok-injective,
}
use pbft_2pc.Config.{f}
use pbft_2pc.Messages.{Transaction, SignedClientRequest, PrePrepareRequest, CommitRequest}
use pbft_2pc.Collect.{collect}
use pbft_2pc.Deps.{Bolt, Codec, Crypto}
use pbft_2pc.Node.{Node, TransactionLog}
use pbft_2pc.Node.Log.{advance}
use pbft_2pc.Node.Certs.Quorum.{validate_commits_effect}
use pbft_2pc.Node.Primary.Logged.{
  IsLogged, IsFor, Logs, KeepsEntries, kept-Logs, finish_prepares-Logs, Started,
  start_round-Started,
}
use pbft_2pc.Node.Primary.{
  Schedule, finish_prepares, finish_commits, start_round, commit_round, prepare_round, run_pbft,
}

module _ ⦃bolt : Bolt⦄ ⦃codec : Codec⦄ ⦃crypto : Crypto⦄ where
  -- A node has committed the request that a pre-prepare carries, with a status: the log entry at its
  -- number is for this request and committed, the datastore has the transaction of the request, and the
  -- commits that the node keeps are three or more.
  abbrev pub HasCommitted : PrePrepareRequest → String → Int64 → Node → Type 0
  HasCommitted ppr status client_seq n =
      (e : TransactionLog) × IsLogged ppr e
      × (n.transaction_log ppr.pre_prepare.sequence ≡ some (advance "committed" e))
      × (n.datastore ppr.pre_prepare.sequence
          ≡ some (record {
            seq = ppr.pre_prepare.sequence;
            transaction = some e.transaction;
            status = status;
            timestamp = e.timestamp;
            client_seq = client_seq;
          }))
      × (3 ≤ length (n.commit_certs ppr.pre_prepare.sequence))

  -- The leader is honest when the commits have come, and what happens while it waits for certificates
  -- changes nothing of a log entry but its state.
  abbrev pub IsSound : Schedule → Type 0
  IsSound s =
      ((m : Node) → (s.during_commits m).byzantine ≡ false)
      × KeepsEntries s.during_prepares
      × KeepsEntries s.during_commits

  -- What the node is when the commits that came are looked at.
  abbrev with_commits : Int64 → List CommitRequest → Node → Node
  with_commits seq certs n = record n { commit_certs = assign seq certs n.commit_certs }

  finish_commits_lem :
      (ppr : PrePrepareRequest) (status : String) (t : Transaction) (certs : List CommitRequest)
      (n : Node)
      → n.byzantine ≡ false
      → Logs ppr n
      → (finish_commits ppr.pre_prepare.sequence status t certs n).0 ≡ true
      → HasCommitted ppr status t.client_seq
          (finish_commits ppr.pre_prepare.sequence status t certs n).1
  unfolding finish_commits
  finish_commits_lem ppr status t certs n honest (e', there, logged) passed =
      let seq = ppr.pre_prepare.sequence in
      elim (validate_commits_effect seq certs status t.client_seq t (with_commits seq certs n)
        honest) [
          | inl (failed, same) ↦ absurd (ground arith)
          | inr (e, good, found, log, stored, others, many) ↦
              (let same : e' ≡ e = some-injective _ _ (sym there ∙ found) in
                rw passed (e, subst (λ a. IsLogged ppr a) same logged, log, stored, many))
        ]

  commit_round_lem :
      (s : Schedule) (ppr ppr' : PrePrepareRequest) (t : Transaction) (status : String)
      (n n' : Node)
      → IsSound s
      → Logs ppr n
      → commit_round s ppr t status n ≡ some (ok ppr', n')
      → (ppr' ≡ ppr) × HasCommitted ppr status t.client_seq n'
  unfolding commit_round
  commit_round_lem s ppr ppr' t status n n' sound logged h =
      elim (Option-cases (collect (2 * f + 1) [] s.commit_arrivals)) [
        | inl waits ↦ (let h' = rw (waits, commit_round) at h in absurd (cc))
        | inr (certs, came) ↦
            (let h' = rw (came, commit_round) at h in
              let seq = ppr.pre_prepare.sequence in
              let m = s.during_commits n in
              let answer = some-injective _ _ h' in
              elim (Bool-cases (finish_commits seq status t certs m).0) [
                | inl passed ↦
                    (let answer' = rw passed at answer in
                      (
                        sym (ok-injective (ap (λ p. p.0) answer')),
                        rw (sym (ap (λ p. p.1) answer')) (
                            finish_commits_lem ppr status t certs m (sound.0 n)
                              (kept-Logs ppr s.during_commits n sound.2 logged) passed),
                      ))
                | inr failed ↦ (let answer' = ap (λ p. p.0) (rw failed at answer) in absurd (cc))
              ])
      ]

  prepare_round_lem :
      (s : Schedule) (ppr ppr' : PrePrepareRequest) (t : Transaction) (status : String)
      (n n' : Node)
      → IsSound s
      → Logs ppr n
      → prepare_round s ppr t status n ≡ some (ok ppr', n')
      → (ppr' ≡ ppr) × HasCommitted ppr status t.client_seq n'
  unfolding prepare_round
  prepare_round_lem s ppr ppr' t status n n' sound logged h =
      elim (Option-cases (collect (2 * f) [] s.prepare_arrivals)) [
        | inl waits ↦ (let h' = rw (waits, prepare_round) at h in absurd (cc))
        | inr (certs, came) ↦
            (let h' = rw (came, prepare_round) at h in
              let r = finish_prepares ppr.pre_prepare.sequence t certs (s.during_prepares n) in
              elim (Bool-cases r.0) [
                | inl passed ↦
                    commit_round_lem s ppr ppr' t status r.1 n' sound
                      (finish_prepares-Logs ppr t certs (s.during_prepares n)
                        (kept-Logs ppr s.during_prepares n sound.1 logged))
                      (rw passed at h')
                | inr failed ↦
                    (let h'' = ap (λ p. p.0) (some-injective _ _ (rw failed at h')) in absurd (cc))
              ])
      ]

  -- What follows the broadcast of the pre-prepare.
  abbrev pub after_start :
      Schedule
      → SignedClientRequest
      → String
      → Result PrePrepareRequest
      → Node
      → Option (Result PrePrepareRequest × Node)
  after_start s req status (ok ppr) n = prepare_round s ppr req.client_request.transaction status n
  after_start s req status (err text) n = some (err text, n)
  after_start s req status panic n = some (panic, n)

  ended :
      (s : Schedule) (req : SignedClientRequest) (old_seq : Int64) (status : String) (n' : Node)
      (ppr : PrePrepareRequest)
      → IsSound s
      → (r : Result PrePrepareRequest) (m : Node) → Started req old_seq (some (r, m))
      → after_start s req status r m ≡ some (ok ppr, n')
      → HasCommitted ppr status req.client_request.transaction.client_seq n' × IsFor req old_seq ppr
  ended s req old_seq status n' ppr sound (ok sent) m (logged, for_) h =
      let t = req.client_request.transaction in
      let (same, done) = prepare_round_lem s sent ppr t status m n' sound logged h in
      (rw same done, rw same for_)
  ended s req old_seq status n' ppr sound (err text) m started h =
      let h' = ap (λ p. p.0) (some-injective _ _ h) in absurd (cc)
  ended s req old_seq status n' ppr sound panic m started h =
      let h' = ap (λ p. p.0) (some-injective _ _ h) in absurd (cc)

  pub run_pbft-eq :
      (s : Schedule) (req : SignedClientRequest) (old_seq : Int64) (status : String) (n : Node)
      → run_pbft s req old_seq status n ≡ elim (start_round s.sleeps req old_seq status n) [
        | none ↦ none
        | some (r, m) ↦ after_start s req status r m
      ]
  unfolding run_pbft
  run_pbft-eq s req old_seq status n = go (start_round s.sleeps req old_seq status n)
    where
      go :
          (o : Option (Result PrePrepareRequest × Node))
          → (elim o [
            | none ↦ none
            | some (r, m) ↦ elim r [
              | ok ppr ↦ prepare_round s ppr req.client_request.transaction status m
              | err text ↦ some (err text, m)
              | panic ↦ some (panic, m)
            ]
          ])
            ≡ elim o [ none ↦ none | some (r, m) ↦ after_start s req status r m ]
      go none = refl
      go (some (ok ppr, m)) = refl
      go (some (err text, m)) = refl
      go (some (panic, m)) = refl

  -- If a PBFT round returns without an error, then the leader has committed the client's request that
  -- the pre-prepare that is returned carries: the log entry at its number has the transaction and the
  -- timestamp of this request and the digest of the pre-prepare, and is committed; the datastore has
  -- this transaction with the status of the round; and the leader keeps three or more commits. Unless
  -- the round is for an old sequence number, the request is the one that the round was called with. The
  -- leader is honest when the commits have come, and what happens while it waits for certificates
  -- changes nothing of a log entry but its state.
  pub run_pbft-HasCommitted :
      (s : Schedule) (req : SignedClientRequest) (old_seq : Int64) (status : String) (n n' : Node)
      (ppr : PrePrepareRequest)
      → IsSound s
      → run_pbft s req old_seq status n ≡ some (ok ppr, n')
      → HasCommitted ppr status req.client_request.transaction.client_seq n' × IsFor req old_seq ppr
  run_pbft-HasCommitted s req old_seq status n n' ppr sound h =
      let h1 = sym (run_pbft-eq s req old_seq status n) ∙ h in
      let begun = start_round-Started s.sleeps req old_seq status n in
      elim (Option-cases (start_round s.sleeps req old_seq status n)) [
        | inl waits ↦ (let h' = rw waits at h1 in absurd (cc))
        | inr ((r, m), started) ↦
            ended s req old_seq status n' ppr sound r m (rw started at begun) (rw started at h1)
      ]

  -- The same for a round of a new request.
  pub run_pbft_new-HasCommitted :
      (s : Schedule) (req : SignedClientRequest) (status : String) (n n' : Node)
      (ppr : PrePrepareRequest)
      → IsSound s
      → run_pbft s req 0 status n ≡ some (ok ppr, n')
      → (ppr.client_req ≡ some req)
        × HasCommitted ppr status req.client_request.transaction.client_seq n'
  run_pbft_new-HasCommitted s req status n n' ppr sound h =
      let (done, for_) = run_pbft-HasCommitted s req 0 status n n' ppr sound h in
      elim for_ [ inl old ↦ absurd (ground (arith, old)) | inr new ↦ (new, done) ]

-- ===== src/Node/Primary/Silence.antt =====
-- A leader's round, and the goroutines of the node that end a cross-shard transaction.
use pbft_2pc.Prelude.{
  ◌∙◌, String, string_eq, nat_eq, Int64, false, Option, none, some, List, [], ok, err, panic, All,
  ◌≡◌, refl, Bool-cases, Option-cases, Result-split, inl, inr, ◌+◌, ◌*◌,
}
use pbft_2pc.Config.{f}
use pbft_2pc.Messages.{Transaction, SignedClientRequest, PrePrepareRequest}
use pbft_2pc.Collect.{collect}
use pbft_2pc.Deps.{Bolt, Codec, Crypto}
use pbft_2pc.Cryptox.{md5_hash}
use pbft_2pc.Node.{Node}
use pbft_2pc.Node.Locking.{clients_of, acquire_locks, release_locks}
use pbft_2pc.Node.Backup.{needs_locks}
use pbft_2pc.Node.Primary.Success.{run_pbft-eq}
use pbft_2pc.Node.Primary.{
  Schedule, check_balance, lock_clients, make_pre_prepare, log_and_send, start_round,
  finish_prepares, commit_round, prepare_round, run_pbft,
}
use pbft_2pc.Node.Primary.Endings.{
  endings, IsQuiet, endings-acquire_locks, endings-finish_commits, endings-finish_prepares,
  endings-log_and_send, endings-make_pre_prepare,
}

module _ (k : Int64) ⦃bolt : Bolt⦄ ⦃codec : Codec⦄ ⦃crypto : Crypto⦄ where
  -- What is claimed of a round that starts at a node.
  abbrev pub Silent {ℓ} : {A : Type ℓ} → Node → Option (A × Node) → Type 0
  Silent n none = Unit
  Silent n (some (a, m)) = endings k m ≡ endings k n

  lock_clients-Silent :
      (sleeps : List (Node → Node)) (t : Transaction) (status : String) (n : Node)
      → All (λ sleep. (i : Node) → endings k (sleep i) ≡ endings k i) sleeps
      → Silent n (lock_clients sleeps t status n)
  unfolding lock_clients release_locks
  lock_clients-Silent sleeps t status n quiet = elim (Bool-cases (needs_locks status)) [
    | inr free ↦ rw (free, lock_clients) refl
    | inl needed ↦ elim (Option-cases (acquire_locks sleeps (clients_of t) (λ _. false) n)) [
      | inl waits ↦ rw (needed, lock_clients, waits) tt
      | inr (m, taken) ↦
          (let same = endings-acquire_locks k sleeps (clients_of t) (λ _. false) n m quiet taken in
            elim (Result-split (check_balance t m)) [
              | inl (done, good) ↦ rw (needed, lock_clients, taken, good) same
              | inr (inl (text, bad)) ↦ rw (needed, lock_clients, taken, bad) same
              | inr (inr bad) ↦ rw (needed, lock_clients, taken, bad) same
            ])
    ]
  ]

  commit_round-Silent :
      (s : Schedule) (ppr : PrePrepareRequest) (t : Transaction) (status : String) (n m : Node)
      → IsQuiet k s
      → endings k m ≡ endings k n
      → Silent n (commit_round s ppr t status m)
  unfolding commit_round
  commit_round-Silent s ppr t status n m quiet same =
      elim (Option-cases (collect (2 * f + 1) [] s.commit_arrivals)) [
        | inl waits ↦ rw (waits, commit_round) tt
        | inr (certs, came) ↦
            rw (came, commit_round)
              (endings-finish_commits k ppr.pre_prepare.sequence status t certs (s.during_commits m)
                ∙ quiet.1 m
                ∙ same)
      ]

  prepare_round-Silent :
      (s : Schedule) (ppr : PrePrepareRequest) (t : Transaction) (status : String) (n m : Node)
      → IsQuiet k s
      → endings k m ≡ endings k n
      → Silent n (prepare_round s ppr t status m)
  unfolding prepare_round
  prepare_round-Silent s ppr t status n m quiet same =
      elim (Option-cases (collect (2 * f) [] s.prepare_arrivals)) [
        | inl waits ↦ rw (waits, prepare_round) tt
        | inr (certs, came) ↦
            (let r = finish_prepares ppr.pre_prepare.sequence t certs (s.during_prepares m) in
              let kept =
                endings-finish_prepares k ppr.pre_prepare.sequence t certs (s.during_prepares m)
                ∙ quiet.0 m
                ∙ same in
              elim (Bool-cases r.0) [
                | inl passed ↦
                    rw (came, prepare_round, passed)
                      (commit_round-Silent s ppr t status n r.1 quiet kept)
                | inr failed ↦ rw (came, prepare_round, failed) kept
              ])
      ]

  start_round-Silent :
      (s : Schedule) (req : SignedClientRequest) (old_seq : Int64) (status : String) (n : Node)
      → IsQuiet k s
      → Silent n (start_round s.sleeps req old_seq status n)
  unfolding start_round
  start_round-Silent s req old_seq status n quiet =
      let t = req.client_request.transaction in
      elim (Result-split (md5_hash (some req))) [
        | inr (inl (text, bad)) ↦ rw (bad, start_round) refl
        | inr (inr bad) ↦ rw (bad, start_round) refl
        | inl (digest, hashed) ↦ elim (Option-cases (lock_clients s.sleeps t status n)) [
          | inl waits ↦ rw (hashed, start_round, waits) tt
          | inr ((r, m), locked) ↦
              (let same : endings k m ≡ endings k n =
                  rw locked at (lock_clients-Silent s.sleeps t status n quiet.2) in
                elim (Result-split r) [
                  | inl (done, good) ↦ rw (hashed, start_round, locked, good) (made digest m same)
                  | inr (inl (text, bad)) ↦ rw (hashed, start_round, locked, bad) same
                  | inr (inr bad) ↦ rw (hashed, start_round, locked, bad) same
                ])
        ]
      ]
    where
      made :
          (digest : String) (m : Node)
          → endings k m ≡ endings k n
          → Silent n (
              let (r', n'') = make_pre_prepare req old_seq status digest m in
              elim r' [
                | ok ppr ↦ some (log_and_send req ppr n'')
                | err text ↦ some (err text, n'')
                | panic ↦ some (panic, n'')
              ])
      made digest m same =
          let p = make_pre_prepare req old_seq status digest m in
          let kept = endings-make_pre_prepare k req old_seq status digest m ∙ same in
          elim (Result-split p.0) [
            | inl (ppr, good) ↦ rw good (endings-log_and_send k req ppr p.1 ∙ kept)
            | inr (inl (text, bad)) ↦ rw bad kept
            | inr (inr bad) ↦ rw bad kept
          ]

  pub run_pbft-Silent :
      (s : Schedule) (req : SignedClientRequest) (old_seq : Int64) (status : String) (n : Node)
      → IsQuiet k s
      → Silent n (run_pbft s req old_seq status n)
  run_pbft-Silent s req old_seq status n quiet =
      let started = start_round-Silent s req old_seq status n quiet in
      elim (Option-cases (start_round s.sleeps req old_seq status n)) [
        | inl waits ↦ rw (run_pbft-eq s req old_seq status n, waits) tt
        | inr ((r, m), ran) ↦
            (let same : endings k m ≡ endings k n = rw ran at started in
              elim (Result-split r) [
                | inl (ppr, good) ↦
                    rw (run_pbft-eq s req old_seq status n, ran, good)
                      (prepare_round-Silent s ppr req.client_request.transaction status n m quiet
                        same)
                | inr (inl (text, bad)) ↦ rw (run_pbft-eq s req old_seq status n, ran, bad) same
                | inr (inr bad) ↦ rw (run_pbft-eq s req old_seq status n, ran, bad) same
              ])
      ]

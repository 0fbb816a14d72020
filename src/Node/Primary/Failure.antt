-- ===== src/Node/Primary/Failure.antt =====
-- What a PBFT round that fails leaves behind on the leader.
use mathlib.Core.Option.{some-injective}
use pbft_2pc.Prelude.{
  ap, sym, ◌∙◌, String, string_eq, nat_eq, Int64, false, Option, none, some, List, [], ◌==◌, Result,
  ok, err, panic, ◌≡◌, refl, ◌⊎◌, inl, inr, arith, Bool-cases, Option-cases, Result-split, eq_refl,
  ◌+◌, ◌*◌,
}
use pbft_2pc.Config.{f}
use pbft_2pc.Messages.{
  Transaction, SignedClientRequest, PrePrepareRequest, PrepareRequest, CommitRequest,
}
use pbft_2pc.Collect.{collect}
use pbft_2pc.Deps.{Bolt, Codec, Crypto}
use pbft_2pc.Cryptox.{md5_hash}
use pbft_2pc.Db.Locks.Exclusion.{is_locked}
use pbft_2pc.Node.{Node}
use pbft_2pc.Node.Locking.{clients_of, acquire_locks, release_locks}
use pbft_2pc.Node.Locking.Waiting.{is_locked-release_locks}
use pbft_2pc.Node.Backup.{needs_locks}
use pbft_2pc.Node.Primary.{
  Schedule, check_balance, lock_clients, make_pre_prepare, log_and_send, start_round,
  finish_prepares, finish_commits, commit_round, prepare_round, run_pbft,
}
use pbft_2pc.Node.Primary.Success.{run_pbft-eq}

module _ ⦃bolt : Bolt⦄ ⦃codec : Codec⦄ ⦃crypto : Crypto⦄ where
  -- Neither client of a transaction is locked.
  abbrev pub AreFree : Transaction → Node → Type 0
  AreFree t n = (is_locked t.from n.db ≡ false) × (is_locked t.to n.db ≡ false)

  release_locks-AreFree : (t : Transaction) (n : Node) → AreFree t (release_locks t n)
  release_locks-AreFree t n = (
    ground (arith, is_locked-release_locks t t.from n, eq_refl t.from),
    ground (arith, is_locked-release_locks t t.to n, eq_refl t.to),
  )

  -- What is claimed of a round that starts at `n` and has an outcome.
  abbrev Clean : Transaction → Node → Option (Result PrePrepareRequest × Node) → Type 0
  Clean t n none = Unit
  Clean t n (some (ok ppr, n')) = Unit
  Clean t n (some (err text, n')) = (n' ≡ n) ⊎ AreFree t n'
  Clean t n (some (panic, n')) = Unit

  finish_commits_failed :
      (seq : Int64) (status : String) (t : Transaction) (certs : List CommitRequest) (n : Node)
      → (finish_commits seq status t certs n).0 ≡ false
      → AreFree t (finish_commits seq status t certs n).1
  unfolding finish_commits
  finish_commits_failed seq status t certs n failed = rw failed (release_locks-AreFree t _)

  finish_prepares_failed :
      (seq : Int64) (t : Transaction) (certs : List PrepareRequest) (n : Node)
      → (finish_prepares seq t certs n).0 ≡ false
      → AreFree t (finish_prepares seq t certs n).1
  unfolding finish_prepares
  finish_prepares_failed seq t certs n failed = rw failed (release_locks-AreFree t _)

  commit_round-Clean :
      (s : Schedule) (ppr : PrePrepareRequest) (t : Transaction) (status : String) (n m : Node)
      → Clean t n (commit_round s ppr t status m)
  unfolding commit_round
  commit_round-Clean s ppr t status n m =
      elim (Option-cases (collect (2 * f + 1) [] s.commit_arrivals)) [
        | inl waits ↦ rw (waits, commit_round) tt
        | inr (certs, came) ↦
            (let seq = ppr.pre_prepare.sequence in
              let r = finish_commits seq status t certs (s.during_commits m) in
              elim (Bool-cases r.0) [
                | inl passed ↦ rw (came, commit_round, passed) tt
                | inr failed ↦
                    rw (came, commit_round, failed)
                      (inr (finish_commits_failed seq status t certs _ failed))
              ])
      ]

  prepare_round-Clean :
      (s : Schedule) (ppr : PrePrepareRequest) (t : Transaction) (status : String) (n m : Node)
      → Clean t n (prepare_round s ppr t status m)
  unfolding prepare_round
  prepare_round-Clean s ppr t status n m =
      elim (Option-cases (collect (2 * f) [] s.prepare_arrivals)) [
        | inl waits ↦ rw (waits, prepare_round) tt
        | inr (certs, came) ↦
            (let r = finish_prepares ppr.pre_prepare.sequence t certs (s.during_prepares m) in
              elim (Bool-cases r.0) [
                | inl passed ↦
                    rw (came, prepare_round, passed) (commit_round-Clean s ppr t status n r.1)
                | inr failed ↦
                    rw (came, prepare_round, failed)
                      (inr (finish_prepares_failed _ t certs _ failed))
              ])
      ]

  lock_clients_failed :
      (sleeps : List (Node → Node)) (t : Transaction) (status : String) (n n' : Node)
      (text : String)
      → lock_clients sleeps t status n ≡ some (err text, n')
      → AreFree t n'
  unfolding lock_clients
  lock_clients_failed sleeps t status n n' text h = elim (Bool-cases (needs_locks status)) [
    | inr free ↦ (let h' = rw free at h in absurd (cc))
    | inl needed ↦ elim (Option-cases (acquire_locks sleeps (clients_of t) (λ _. false) n)) [
      | inl waits ↦ (let h' = rw (needed, waits) at h in absurd (cc))
      | inr (m, taken) ↦
          (let h' = rw (needed, taken) at h in
            elim (Result-split (check_balance t m)) [
              | inl (done, good) ↦ (let h'' = rw good at h' in absurd (cc))
              | inr (inl (text', bad)) ↦
                  (let h'' = rw bad at h' in
                    rw (sym (ap (λ p. p.1) (some-injective _ _ h''))) (release_locks-AreFree t m))
              | inr (inr bad) ↦ (let h'' = rw bad at h' in absurd (cc))
            ])
    ]
  ]

  sent-Clean :
      (req : SignedClientRequest) (ppr : PrePrepareRequest) (t : Transaction) (n m : Node)
      → Clean t n (some (log_and_send req ppr m))
  unfolding log_and_send
  sent-Clean req ppr t n m = elim (Option-cases ppr.client_req) [
    | inl missing ↦ rw missing tt
    | inr (logged, found) ↦ rw found tt
  ]

  make_pre_prepare_never_err :
      (req : SignedClientRequest) (old_seq : Int64) (status digest : String) (n : Node)
      → ((ppr : PrePrepareRequest) × ((make_pre_prepare req old_seq status digest n).0 ≡ ok ppr))
        ⊎ ((make_pre_prepare req old_seq status digest n).0 ≡ panic)
  unfolding make_pre_prepare
  make_pre_prepare_never_err req old_seq status digest n = elim (Bool-cases (old_seq == 0)) [
    | inl new ↦ rw new (inl (_, refl))
    | inr old ↦ elim (Option-cases (n.pre_prepares old_seq)) [
      | inl missing ↦ rw (old, missing) (inr refl)
      | inr (ppr, found) ↦ rw (old, found) (inl (ppr, refl))
    ]
  ]

  start_round-Clean :
      (sleeps : List (Node → Node)) (req : SignedClientRequest) (old_seq : Int64) (status : String)
      (n : Node)
      → Clean req.client_request.transaction n (start_round sleeps req old_seq status n)
  unfolding start_round
  start_round-Clean sleeps req old_seq status n =
      let t = req.client_request.transaction in
      elim (Result-split (md5_hash (some req))) [
        | inr (inl (text, bad)) ↦ rw (bad, start_round) (inl refl)
        | inr (inr bad) ↦ rw (bad, start_round) tt
        | inl (digest, hashed) ↦ elim (Option-cases (lock_clients sleeps t status n)) [
          | inl waits ↦ rw (hashed, start_round, waits) tt
          | inr ((r, m), locked) ↦ elim (Result-split r) [
            | inl (done, good) ↦ rw (hashed, start_round, locked, good) (made digest m)
            | inr (inl (text, bad)) ↦
                rw (hashed, start_round, locked, bad)
                  (inr (lock_clients_failed sleeps t status n m text (rw bad at locked)))
            | inr (inr bad) ↦ rw (hashed, start_round, locked, bad) tt
          ]
        ]
      ]
    where
      made :
          (digest : String) (m : Node)
          → Clean req.client_request.transaction n (
              let (r', n'') = make_pre_prepare req old_seq status digest m in
              elim r' [
                | ok ppr ↦ some (log_and_send req ppr n'')
                | err text ↦ some (err text, n'')
                | panic ↦ some (panic, n'')
              ])
      made digest m = elim (make_pre_prepare_never_err req old_seq status digest m) [
        | inl (ppr, built) ↦ rw built (sent-Clean req ppr req.client_request.transaction n _)
        | inr nil ↦ rw nil tt
      ]

  -- If a PBFT round returns an error, then either it has changed nothing on the leader, or neither
  -- client of the transaction is locked on the leader when it returns.
  pub run_pbft_failed :
      (s : Schedule) (req : SignedClientRequest) (old_seq : Int64) (status : String) (n n' : Node)
      (text : String)
      → run_pbft s req old_seq status n ≡ some (err text, n')
      → (n' ≡ n) ⊎ AreFree req.client_request.transaction n'
  run_pbft_failed s req old_seq status n n' text h =
      let t = req.client_request.transaction in
      let h1 = sym (run_pbft-eq s req old_seq status n) ∙ h in
      elim (Option-cases (start_round s.sleeps req old_seq status n)) [
        | inl waits ↦ (let h' = rw waits at h1 in absurd (cc))
        | inr ((r, m), started) ↦
            (let h2 = rw started at h1 in
              elim (Result-split r) [
                | inl (ppr, good) ↦
                    (let h3 = rw good at h2 in rw h3 at (prepare_round-Clean s ppr t status n m))
                | inr (inl (text', bad)) ↦
                    (let e = (rw bad at started) ∙ (rw bad at h2) in
                      rw e at (start_round-Clean s.sleeps req old_seq status n))
                | inr (inr bad) ↦
                    (let h3 = ap (λ p. p.0) (some-injective _ _ (rw bad at h2)) in absurd (cc))
              ])
      ]

-- ===== src/Node/TwoPhase/Told.antt =====
-- What the client of a cross-shard transaction is told, and when.
use mathlib.Core.Option.{some-injective}
use mathlib.Core.Path.{subst}
use pbft_2pc.Prelude.{
  append-snoc, ap, sym, ◌∙◌, String, nat_eq, Int64, true, false, Option, none, some, List, [], ◌∷◌,
  ◌++◌, Result, ok, err, panic, is_ok, ◌==◌, ◌≡◌, ◌⊎◌, refl, Option-cases, inl, inr, arith,
}
use pbft_2pc.Messages.{SignedClientRequest, PrePrepareRequest, PcReply}
use pbft_2pc.Deps.{Bolt, Codec, Crypto}
use pbft_2pc.Node.{Node, Effect, emit}
use pbft_2pc.Node.Primary.{run_pbft}
use pbft_2pc.Node.Primary.Endings.{endings, IsQuiet, select-append}
use pbft_2pc.Node.Primary.Silence.{run_pbft-Silent}
use pbft_2pc.Node.Primary.Success.{HasCommitted, IsSound, run_pbft_new-HasCommitted}
use pbft_2pc.Node.TwoPhase.{
  Ending, Exchange, pc_request, finish_commit, participant, run_cross_shard,
}
use pbft_2pc.Node.TwoPhase.Decision.{decide_on, second_status, decide-eq}
use pbft_2pc.Node.TwoPhase.Agreement.{after_first, run_cross_shard-eq}

abbrev pub seq_of : SignedClientRequest → Int64
seq_of req = req.client_request.transaction.client_seq

-- What tells the client of a success, and removes the entry of the write-ahead log.
abbrev pub success : SignedClientRequest → List Effect
success req =
    Effect.go_reply req.client_request.timestamp true (seq_of req)
    ∷ Effect.go_erase_wal (seq_of req)
    ∷ []

module _ ⦃bolt : Bolt⦄ ⦃codec : Codec⦄ ⦃crypto : Crypto⦄ where
  finish_commit-endings :
      (req : SignedClientRequest) (n : Node)
      → endings (seq_of req) (finish_commit req n) ≡ endings (seq_of req) n ++ success req
  unfolding finish_commit emit
  finish_commit-endings req n =
      let k = seq_of req in
      let same : (k == k) ≡ true = ground arith in
      let reply = Effect.go_reply req.client_request.timestamp true k in
      select-append k (n.outbox ++ reply ∷ []) (Effect.go_erase_wal k ∷ [])
      ∙ rw (select-append k n.outbox (reply ∷ []), same)
          (append-snoc (endings k n) reply (Effect.go_erase_wal k ∷ []))

  finish_commit-HasCommitted :
      (req : SignedClientRequest) (ppr : PrePrepareRequest) (status : String) (n : Node)
      → HasCommitted ppr status (seq_of req) n
      → HasCommitted ppr status (seq_of req) (finish_commit req n)
  unfolding finish_commit emit
  finish_commit-HasCommitted req ppr status n done = done

  -- The second round does not commit: the participant does not agree, or the round "C" fails.
  abbrev pub NotCommitted : Exchange → Result PcReply → SignedClientRequest → Node → Type 0
  NotCommitted x answer req n =
      (is_ok answer ≡ false)
      ⊎ ((r : Result PrePrepareRequest) × (m : Node) × (run_pbft x.second_round req 0 "C" n
            ≡ some (r, m))
          × (is_ok r ≡ false))

  -- The second round commits.
  abbrev pub Commits : Exchange → Result PcReply → SignedClientRequest → Node → Node → Type 0
  Commits x answer req n n' =
      (is_ok answer ≡ true)
      × (ppr : PrePrepareRequest) × (m : Node) × (run_pbft x.second_round req 0 "C" n
          ≡ some (ok ppr, m))
      × (ppr.client_req ≡ some req)
      × HasCommitted ppr "C" (seq_of req) n'

  abbrev pub Told : Exchange → Result PcReply → SignedClientRequest → Node → Node → Type 0
  Told x answer req n n' =
      ((endings (seq_of req) n' ≡ endings (seq_of req) n) × NotCommitted x answer req n)
      ⊎ ((endings (seq_of req) n' ≡ endings (seq_of req) n ++ success req)
          × Commits x answer req n n')

  first_calm :
      (x : Exchange) (req : SignedClientRequest) (old_seq : Int64) (n m : Node)
      (r : Result PrePrepareRequest)
      → IsQuiet (seq_of req) x.first_round
      → run_pbft x.first_round req old_seq "P" n ≡ some (r, m)
      → endings (seq_of req) m ≡ endings (seq_of req) n
  first_calm x req old_seq n m r quiet ran =
      rw ran at (run_pbft-Silent (seq_of req) x.first_round req old_seq "P" n quiet)

  second_calm :
      (x : Exchange) (answer : Result PcReply) (req : SignedClientRequest) (n m : Node)
      (r : Result PrePrepareRequest)
      → IsQuiet (seq_of req) x.second_round
      → run_pbft x.second_round req 0 (second_status answer) n ≡ some (r, m)
      → endings (seq_of req) m ≡ endings (seq_of req) n
  second_calm x answer req n m r quiet ran =
      rw ran at (run_pbft-Silent (seq_of req) x.second_round req 0 (second_status answer) n quiet)

  told_by :
      (x : Exchange) (answer : Result PcReply) (req : SignedClientRequest) (n n' : Node)
      (e : Ending) (o : Option (Result PrePrepareRequest × Node))
      → IsSound x.second_round
      → IsQuiet (seq_of req) x.second_round
      → run_pbft x.second_round req 0 (second_status answer) n ≡ o
      → decide_on x answer req o ≡ some (e, n')
      → Told x answer req n n'
  told_by x (ok reply) req n n' e none sound quiet ran h = absurd (cc)
  told_by x (err text) req n n' e none sound quiet ran h = absurd (cc)
  told_by x panic req n n' e none sound quiet ran h = absurd (cc)
  told_by x (err text) req n n' e (some (r, m)) sound quiet ran h = inl (
    rw (ap (λ p. p.1) (some-injective _ _ h)) at (second_calm x (err text) req n m r quiet ran),
    inl refl,
  )
  told_by x panic req n n' e (some (r, m)) sound quiet ran h = inl (
    rw (ap (λ p. p.1) (some-injective _ _ h)) at (second_calm x panic req n m r quiet ran),
    inl refl,
  )
  told_by x (ok reply) req n n' e (some (err text, m)) sound quiet ran h = inl (
    ap (endings (seq_of req)) (sym (ap (λ p. p.1) (some-injective _ _ h)))
        ∙ second_calm x (ok reply) req n m (err text) quiet ran,
    inr (err text, m, ran, refl),
  )
  told_by x (ok reply) req n n' e (some (panic, m)) sound quiet ran h = inl (
    ap (endings (seq_of req)) (sym (ap (λ p. p.1) (some-injective _ _ h)))
        ∙ second_calm x (ok reply) req n m panic quiet ran,
    inr (panic, m, ran, refl),
  )
  told_by x (ok reply) req n n' e (some (ok ppr, m)) sound quiet ran h =
      let same : finish_commit req m ≡ n' = ap (λ p. p.1) (some-injective _ _ h) in
      let (new, done) = run_pbft_new-HasCommitted x.second_round req "C" n m ppr sound ran in
      inr (
        ap (endings (seq_of req)) (sym same)
            ∙ finish_commit-endings req m
            ∙ ap (λ l. l ++ success req) (second_calm x (ok reply) req n m (ok ppr) quiet ran),
        (
          refl,
          ppr,
          m,
          ran,
          new,
          subst (λ i. HasCommitted ppr "C" (seq_of req) i) same
              (finish_commit-HasCommitted req ppr "C" m done),
        ),
      )

  -- The coordinator does not come to commit: its round "P" fails, it has no connection to the
  -- participant, or the participant has answered and the second round does not commit.
  abbrev pub Stops : Exchange → SignedClientRequest → Int64 → Node → Type 0
  Stops x req old_seq n =
      (r : Result PrePrepareRequest) × (m : Node) × (run_pbft x.first_round req old_seq "P" n
        ≡ some (r, m))
      × ((is_ok r ≡ false)
          ⊎ ((participant req.client_request.transaction.cluster_to m ≡ none)
              ⊎ ((ppr : PrePrepareRequest) × (r ≡ ok ppr)
                  × NotCommitted x (x.prepare_answer (pc_request req ppr m)) req
                      (x.during_prepare m))))

  -- The coordinator comes to commit.
  abbrev pub Succeeds : Exchange → SignedClientRequest → Int64 → Node → Node → Type 0
  Succeeds x req old_seq n n' =
      (ppr : PrePrepareRequest) × (m : Node) × (run_pbft x.first_round req old_seq "P" n
        ≡ some (ok ppr, m))
      × Commits x (x.prepare_answer (pc_request req ppr m)) req (x.during_prepare m) n'

  told_first :
      (x : Exchange) (req : SignedClientRequest) (old_seq : Int64) (n n' : Node) (e : Ending)
      (o : Option (Result PrePrepareRequest × Node))
      → IsSound x.second_round
      → IsQuiet (seq_of req) x.first_round
      → IsQuiet (seq_of req) x.second_round
      → ((m : Node) → endings (seq_of req) (x.during_prepare m) ≡ endings (seq_of req) m)
      → run_pbft x.first_round req old_seq "P" n ≡ o
      → after_first x req o ≡ some (e, n')
      → ((endings (seq_of req) n' ≡ endings (seq_of req) n) × Stops x req old_seq n)
        ⊎ ((endings (seq_of req) n' ≡ endings (seq_of req) n ++ success req)
            × Succeeds x req old_seq n n')
  told_first x req old_seq n n' e none sound quiet quiet' calm ran h = absurd (cc)
  told_first x req old_seq n n' e (some (err text, m)) sound quiet quiet' calm ran h = inl (
    ap (endings (seq_of req)) (sym (ap (λ p. p.1) (some-injective _ _ h)))
        ∙ first_calm x req old_seq n m (err text) quiet ran,
    (err text, m, ran, inl refl),
  )
  told_first x req old_seq n n' e (some (panic, m)) sound quiet quiet' calm ran h = inl (
    ap (endings (seq_of req)) (sym (ap (λ p. p.1) (some-injective _ _ h)))
        ∙ first_calm x req old_seq n m panic quiet ran,
    (panic, m, ran, inl refl),
  )
  told_first x req old_seq n n' e (some (ok ppr, m)) sound quiet quiet' calm ran h =
      let same = first_calm x req old_seq n m (ok ppr) quiet ran in
      let answer = x.prepare_answer (pc_request req ppr m) in
      elim (Option-cases (participant req.client_request.transaction.cluster_to m)) [
        | inl unknown ↦
            (let h' = some-injective _ _ (rw (unknown, after_first) at h) in
              inl (
                ap (endings (seq_of req)) (sym (ap (λ p. p.1) h')) ∙ same,
                (ok ppr, m, ran, inr (inl unknown)),
              ))
        | inr (leader, known) ↦
            (let h' =
                sym (decide-eq x answer req (x.during_prepare m)) ∙ rw (known, after_first) at h in
              elim (told_by x answer req (x.during_prepare m) n' e _ sound quiet' refl h') [
                | inl (kept, stops) ↦
                    inl (kept ∙ calm m ∙ same, (ok ppr, m, ran, inr (inr (ppr, refl, stops))))
                | inr (grown, commits) ↦
                    inr (grown ∙ ap (λ l. l ++ success req) (calm m ∙ same), (ppr, m, ran, commits))
              ])
      ]

  -- When the coordinator's run of a cross-shard transaction has come through its rounds, one of two
  -- things holds. Either it has started no goroutine that replies to the client about this transaction,
  -- erases its entry of the write-ahead log or waits for its message to commit, and its round "P" has
  -- failed, or it has no connection to the participant, or the participant has not agreed, or its round
  -- "C" has failed. Or it has started one reply of a success, then one erasure, and nothing else of the
  -- kind; its round "P" has succeeded, the participant has agreed, and its round "C" has succeeded and
  -- has committed the request with the status "C" and three commits or more. This does not depend on the
  -- answers to PCCommit. The leader is honest in the second round, what happens during its waits changes
  -- nothing of a log entry but its state, and what happens during all waits starts no goroutine of the
  -- kind.
  pub client_told :
      (x : Exchange) (req : SignedClientRequest) (old_seq : Int64) (n n' : Node) (e : Ending)
      → IsSound x.second_round
      → IsQuiet (seq_of req) x.first_round
      → IsQuiet (seq_of req) x.second_round
      → ((m : Node) → endings (seq_of req) (x.during_prepare m) ≡ endings (seq_of req) m)
      → run_cross_shard x req old_seq n ≡ some (e, n')
      → ((endings (seq_of req) n' ≡ endings (seq_of req) n) × Stops x req old_seq n)
        ⊎ ((endings (seq_of req) n' ≡ endings (seq_of req) n ++ success req)
            × Succeeds x req old_seq n n')
  client_told x req old_seq n n' e sound quiet quiet' calm h =
      told_first x req old_seq n n' e _ sound quiet quiet' calm refl
        (sym (run_cross_shard-eq x req old_seq n) ∙ h)

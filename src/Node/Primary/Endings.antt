-- ===== src/Node/Primary/Endings.antt =====
-- The goroutines of a node that end a cross-shard transaction, over the pieces of a leader's round.
use mathlib.Core.Option.{some-injective}
use pbft_2pc.Prelude.{
  ap, sym, ◌∙◌, String, string_eq, nat_eq, Int64, Bool, true, false, some, List, [], ◌∷◌, ◌++◌, map,
  select, length, leb, assign, if◌then◌else◌, ◌==◌, All, append-nil, ◌≡◌, refl, Bool-cases,
  Option-cases, Result-split, inl, inr, ◌+◌, ◌*◌,
}
use pbft_2pc.Config.{f}
use pbft_2pc.Messages.{
  Transaction, SignedClientRequest, PrePrepareRequest, PrepareRequest, CommitRequest,
}
use pbft_2pc.Deps.{Bolt, Codec, Crypto}
use pbft_2pc.Db.Locks.{check_and_get_locks}
use pbft_2pc.Node.{Node, Effect, emit, emit_all}
use pbft_2pc.Node.Log.{update_log, write_log, save_pre_prepare, log_client_request}
use pbft_2pc.Node.Locking.{acquire_locks, release_locks}
use pbft_2pc.Node.Certs.{
  get_valid_prepare_certs, get_valid_commit_certs, validate_prepares, validate_commits,
  commit_entry, save_transaction_to_datastore,
}
use pbft_2pc.Node.Primary.{
  Schedule, make_pre_prepare, log_and_send, finish_prepares, finish_commits,
}

-- Is an effect a goroutine that ends a cross-shard transaction, which a client sequence number names:
-- the one that waits for the message to commit and aborts without it, the reply to the client, or the
-- removal of the entry of the write-ahead log?
abbrev pub is_ending : Int64 → Effect → Bool
is_ending k (Effect.go_wait_for_commit req) = req.client_request.transaction.client_seq == k
is_ending k (Effect.go_reply timestamp result client_seq) = client_seq == k
is_ending k (Effect.go_erase_wal client_seq) = client_seq == k
is_ending k e = false

module _ (k : Int64) where
  pub select-append :
      (xs ys : List Effect)
      → select (is_ending k) (xs ++ ys) ≡ select (is_ending k) xs ++ select (is_ending k) ys
  select-append [] ys = refl
  select-append (x ∷ xs) ys = elim (Bool-cases (is_ending k x)) [
    | inl yes_ ↦ rw (yes_, select-append xs ys) refl
    | inr no_ ↦ rw (no_, select-append xs ys) refl
  ]

  append-none :
      (xs ys : List Effect)
      → select (is_ending k) ys ≡ []
      → select (is_ending k) (xs ++ ys) ≡ select (is_ending k) xs
  append-none xs ys nothing =
      select-append xs ys ∙ rw nothing (append-nil (select (is_ending k) xs))

  sent-none :
      (ppr : PrePrepareRequest) (ids : List String)
      → select (is_ending k) (map (λ p. Effect.send_pre_prepare p ppr) ids) ≡ []
  sent-none ppr [] = refl
  sent-none ppr (p ∷ ids) = sent-none ppr ids

module _ ⦃bolt : Bolt⦄ where
  -- The goroutines of a node that end a cross-shard transaction.
  abbrev pub endings : Int64 → Node → List Effect
  endings k n = select (is_ending k) n.outbox

  -- What happens during the waits of a round starts no such goroutine.
  abbrev pub IsQuiet : Int64 → Schedule → Type 0
  IsQuiet k s =
      ((m : Node) → endings k (s.during_prepares m) ≡ endings k m)
      × ((m : Node) → endings k (s.during_commits m) ≡ endings k m)
      × All (λ sleep. (m : Node) → endings k (sleep m) ≡ endings k m) s.sleeps

module _ (k : Int64) ⦃bolt : Bolt⦄ ⦃codec : Codec⦄ ⦃crypto : Crypto⦄ where
  endings_if :
      (b : Bool) (h l n : Node)
      → endings k h ≡ endings k n
      → endings k l ≡ endings k n
      → endings k (if b then h else l) ≡ endings k n
  endings_if true h l n same other = same
  endings_if false h l n same other = other

  endings-emit_all :
      (ppr : PrePrepareRequest) (ids : List String) (n : Node)
      → endings k (emit_all (map (λ p. Effect.send_pre_prepare p ppr) ids) n) ≡ endings k n
  unfolding emit_all
  endings-emit_all ppr ids n = append-none k n.outbox _ (sent-none k ppr ids)

  endings-update_log :
      (seq : Int64) (status : String) (n : Node) → endings k (update_log seq status n) ≡ endings k n
  unfolding update_log
  endings-update_log seq status n = elim (Option-cases (n.transaction_log seq)) [
    | inl missing ↦ rw (missing, update_log) refl
    | inr (e, found) ↦ rw (found, update_log) refl
  ]

  endings-commit_entry :
      (seq : Int64) (status : String) (s : Int64) (t : Transaction) (n : Node)
      → endings k (commit_entry seq status s t n) ≡ endings k n
  unfolding commit_entry save_transaction_to_datastore
  endings-commit_entry seq status s t n = elim (Bool-cases (status == "P")) [
    | inl prepares ↦ rw prepares (endings-update_log seq "committed" n)
    | inr other ↦ rw other (endings-update_log seq "committed" n)
  ]

  endings-validate_commits :
      (seq : Int64) (cs : List CommitRequest) (status : String) (s : Int64) (t : Transaction)
      (n : Node)
      → endings k (validate_commits seq cs status s t n).1 ≡ endings k n
  unfolding validate_commits emit
  endings-validate_commits seq cs status s t n =
      elim (Bool-cases (leb (2 * f + 1) (length (get_valid_commit_certs seq cs n)))) [
        | inl many ↦ rw many (
            append-none k (if n.byzantine then n else commit_entry seq status s t n).outbox _ refl
            ∙ endings_if n.byzantine n (commit_entry seq status s t n) n refl
                (endings-commit_entry seq status s t n))
        | inr few ↦ rw few refl
      ]

  endings-validate_prepares :
      (seq : Int64) (ps : List PrepareRequest) (n : Node)
      → endings k (validate_prepares seq ps n).1 ≡ endings k n
  unfolding validate_prepares
  endings-validate_prepares seq ps n =
      elim (Bool-cases (leb (2 * f) (length (get_valid_prepare_certs seq ps n)))) [
        | inl many ↦ rw many (
            endings_if n.byzantine n (update_log seq "prepared" n) n refl
              (endings-update_log seq "prepared" n))
        | inr few ↦ rw few refl
      ]

  pub endings-finish_commits :
      (seq : Int64) (status : String) (t : Transaction) (cs : List CommitRequest) (n : Node)
      → endings k (finish_commits seq status t cs n).1 ≡ endings k n
  unfolding finish_commits release_locks
  endings-finish_commits seq status t cs n =
      let m = record n { commit_certs = assign seq cs n.commit_certs } in
      let same = endings-validate_commits seq cs status t.client_seq t m in
      elim (Bool-cases (validate_commits seq cs status t.client_seq t m).0) [
        | inl passed ↦ rw passed same
        | inr failed ↦ rw failed same
      ]

  pub endings-finish_prepares :
      (seq : Int64) (t : Transaction) (ps : List PrepareRequest) (n : Node)
      → endings k (finish_prepares seq t ps n).1 ≡ endings k n
  unfolding finish_prepares release_locks emit
  endings-finish_prepares seq t ps n =
      let m = record n { prepare_certs = assign seq ps n.prepare_certs } in
      let same = endings-validate_prepares seq ps m in
      elim (Bool-cases (validate_prepares seq ps m).0) [
        | inl passed ↦ rw passed (append-none k (validate_prepares seq ps m).1.outbox _ refl ∙ same)
        | inr failed ↦ rw failed same
      ]

  pub endings-log_and_send :
      (req : SignedClientRequest) (ppr : PrePrepareRequest) (n : Node)
      → endings k (log_and_send req ppr n).1 ≡ endings k n
  unfolding log_and_send write_log save_pre_prepare log_client_request
  endings-log_and_send req ppr n = elim (Option-cases ppr.client_req) [
    | inl missing ↦ rw missing refl
    | inr (logged, found) ↦ rw found (endings-emit_all _ _ _)
  ]

  pub endings-make_pre_prepare :
      (req : SignedClientRequest) (old_seq : Int64) (status digest : String) (n : Node)
      → endings k (make_pre_prepare req old_seq status digest n).1 ≡ endings k n
  unfolding make_pre_prepare
  endings-make_pre_prepare req old_seq status digest n = elim (Bool-cases (old_seq == 0)) [
    | inl new ↦ rw new refl
    | inr old ↦ rw old refl
  ]

  pub endings-acquire_locks :
      (sleeps : List (Node → Node)) (ks : List String) (byz : Node → Bool) (n m : Node)
      → All (λ sleep. (i : Node) → endings k (sleep i) ≡ endings k i) sleeps
      → acquire_locks sleeps ks byz n ≡ some m
      → endings k m ≡ endings k n
  unfolding acquire_locks
  endings-acquire_locks [] ks byz n m quiet h =
      elim (Result-split (check_and_get_locks ks (byz n) n.db).0) [
        | inl (done, good) ↦
            ap (endings k) (sym (some-injective _ _ (rw (good, acquire_locks) at h)))
        | inr (inl (text, bad)) ↦ (let h' = rw (bad, acquire_locks) at h in absurd (cc))
        | inr (inr bad) ↦ (let h' = rw (bad, acquire_locks) at h in absurd (cc))
      ]
  endings-acquire_locks (sleep ∷ sleeps) ks byz n m (calm, quiet) h =
      elim (Result-split (check_and_get_locks ks (byz n) n.db).0) [
        | inl (done, good) ↦
            ap (endings k) (sym (some-injective _ _ (rw (good, acquire_locks) at h)))
        | inr (inl (text, bad)) ↦
            endings-acquire_locks sleeps ks byz (sleep n) m quiet (rw (bad, acquire_locks) at h)
            ∙ calm n
        | inr (inr bad) ↦ (let h' = rw (bad, acquire_locks) at h in absurd (cc))
      ]

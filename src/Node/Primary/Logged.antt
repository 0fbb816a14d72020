-- ===== src/Node/Primary/Logged.antt =====
-- What a leader's log has for the request of its pre-prepare.
use mathlib.Core.Path.{subst}
use pbft_2pc.Prelude.{
  ap, sym, String, string_eq, nat_eq, Int64, Bool, true, false, Option, none, some, List, length,
  leb, assign, if◌then◌else◌, ◌==◌, Result, ok, err, panic, ok-injective, ◌≡◌, ◌⊎◌, refl,
  Bool-cases, Option-cases, Result-split, inl, inr, arith, ◌*◌,
}
use pbft_2pc.Config.{f, states}
use pbft_2pc.Messages.{Transaction, SignedClientRequest, PrePrepareRequest, PrepareRequest}
use pbft_2pc.Deps.{Bolt, Codec, Crypto}
use pbft_2pc.Cryptox.{md5_hash}
use pbft_2pc.Node.{Node, TransactionLog, emit, emit_all}
use pbft_2pc.Node.Log.{advance, update_log, write_log, save_pre_prepare, log_client_request}
use pbft_2pc.Node.Log.Order.{advance-state, update_log_self}
use pbft_2pc.Node.Locking.{release_locks}
use pbft_2pc.Node.Certs.{get_valid_prepare_certs, validate_prepares}
use pbft_2pc.Node.Primary.{
  lock_clients, make_pre_prepare, log_and_send, start_round, finish_prepares,
}

-- An entry of the log is for the client's request that a pre-prepare carries.
abbrev pub IsLogged : PrePrepareRequest → TransactionLog → Type 0
IsLogged ppr e =
    (logged : SignedClientRequest) × (ppr.client_req ≡ some logged)
    × (e.transaction ≡ logged.client_request.transaction)
    × (e.timestamp ≡ logged.client_request.timestamp)
    × (e.digest ≡ ppr.pre_prepare.digest)

-- A pre-prepare is a new one, for a request, or an old one.
abbrev pub IsFor : SignedClientRequest → Int64 → PrePrepareRequest → Type 0
IsFor req old_seq ppr = ((old_seq == 0) ≡ false) ⊎ (ppr.client_req ≡ some req)

module _ ⦃bolt : Bolt⦄ where
  -- The log has the request of a pre-prepare under its sequence number.
  abbrev pub Logs : PrePrepareRequest → Node → Type 0
  Logs ppr n =
      (e : TransactionLog) × (n.transaction_log ppr.pre_prepare.sequence ≡ some e) × IsLogged ppr e

  -- A change of a node that leaves its log entries as they are, but for their states.
  abbrev pub KeepsEntries : (Node → Node) → Type 0
  KeepsEntries change =
      (m : Node) (seq : Int64) (e : TransactionLog)
      → m.transaction_log seq ≡ some e
      → (e' : TransactionLog) × ((change m).transaction_log seq ≡ some e')
        × (record e { state = e'.state } ≡ e')

  pub kept-Logs :
      (ppr : PrePrepareRequest) (change : Node → Node) (m : Node)
      → KeepsEntries change
      → Logs ppr m
      → Logs ppr (change m)
  kept-Logs ppr change m keeps (e, there, logged) =
      let (e', there', same) = keeps m ppr.pre_prepare.sequence e there in
      (e', there', subst (λ a. IsLogged ppr a) same logged)

  update_log-Logs :
      (ppr : PrePrepareRequest) (status : String) (n : Node)
      → Logs ppr n
      → Logs ppr (update_log ppr.pre_prepare.sequence status n)
  update_log-Logs ppr status n (e, there, logged) = (
    advance status e,
    update_log_self ppr.pre_prepare.sequence status n e there,
    subst (λ a. IsLogged ppr a) (advance-state status e).0 logged,
  )

  Logs-if :
      (ppr : PrePrepareRequest) (b : Bool) (m n : Node)
      → Logs ppr m
      → Logs ppr n
      → Logs ppr (if b then m else n)
  Logs-if ppr true m n first second = first
  Logs-if ppr false m n first second = second

module _ ⦃bolt : Bolt⦄ ⦃codec : Codec⦄ ⦃crypto : Crypto⦄ where
  validate_prepares-Logs :
      (ppr : PrePrepareRequest) (ps : List PrepareRequest) (n : Node)
      → Logs ppr n
      → Logs ppr (validate_prepares ppr.pre_prepare.sequence ps n).1
  unfolding validate_prepares
  validate_prepares-Logs ppr ps n logged =
      let seq = ppr.pre_prepare.sequence in
      elim (Bool-cases (leb (2 * f) (length (get_valid_prepare_certs seq ps n)))) [
        | inl many ↦ rw many (
            Logs-if ppr n.byzantine n (update_log seq "prepared" n) logged
              (update_log-Logs ppr "prepared" n logged))
        | inr few ↦ rw few logged
      ]

  pub finish_prepares-Logs :
      (ppr : PrePrepareRequest) (t : Transaction) (ps : List PrepareRequest) (n : Node)
      → Logs ppr n
      → Logs ppr (finish_prepares ppr.pre_prepare.sequence t ps n).1
  unfolding finish_prepares release_locks emit
  finish_prepares-Logs ppr t ps n logged =
      let seq = ppr.pre_prepare.sequence in
      let m = record n { prepare_certs = assign seq ps n.prepare_certs } in
      let kept = validate_prepares-Logs ppr ps m logged in
      elim (Bool-cases (validate_prepares seq ps m).0) [
        | inl passed ↦ rw passed kept
        | inr failed ↦ rw failed kept
      ]

  -- What is claimed of the start of a round.
  abbrev pub Started :
      SignedClientRequest → Int64 → Option (Result PrePrepareRequest × Node) → Type 0
  Started req old_seq none = Unit
  Started req old_seq (some (ok ppr, m)) = Logs ppr m × IsFor req old_seq ppr
  Started req old_seq (some (err text, m)) = Unit
  Started req old_seq (some (panic, m)) = Unit

  log_and_send-Started :
      (req : SignedClientRequest) (old_seq : Int64) (ppr : PrePrepareRequest) (n : Node)
      → IsFor req old_seq ppr
      → Started req old_seq (some (log_and_send req ppr n))
  unfolding log_and_send write_log save_pre_prepare log_client_request emit_all
  log_and_send-Started req old_seq ppr n for_ = elim (Option-cases ppr.client_req) [
    | inl missing ↦ rw (missing, log_and_send) tt
    | inr (logged, found) ↦
        (let cr = logged.client_request in
          let e : TransactionLog = record {
            transaction = cr.transaction;
            view = n.view;
            state = states "pre-prepared";
            digest = ppr.pre_prepare.digest;
            timestamp = cr.timestamp;
            client_seq = cr.transaction.client_seq;
          } in
          rw (found, log_and_send) ((e, ground arith, (logged, found, refl, refl, refl)), for_))
  ]

  make_pre_prepare-IsFor :
      (req : SignedClientRequest) (old_seq : Int64) (status digest : String) (n : Node)
      (ppr : PrePrepareRequest)
      → (make_pre_prepare req old_seq status digest n).0 ≡ ok ppr
      → IsFor req old_seq ppr
  unfolding make_pre_prepare
  make_pre_prepare-IsFor req old_seq status digest n ppr h = elim (Bool-cases (old_seq == 0)) [
    | inl new ↦
        inr (ap (λ (p : PrePrepareRequest). p.client_req) (sym (ok-injective (rw new at h))))
    | inr old ↦ inl old
  ]

  pub start_round-Started :
      (sleeps : List (Node → Node)) (req : SignedClientRequest) (old_seq : Int64) (status : String)
      (n : Node)
      → Started req old_seq (start_round sleeps req old_seq status n)
  unfolding start_round
  start_round-Started sleeps req old_seq status n =
      let t = req.client_request.transaction in
      elim (Result-split (md5_hash (some req))) [
        | inr (inl (text, bad)) ↦ rw (bad, start_round) tt
        | inr (inr bad) ↦ rw (bad, start_round) tt
        | inl (digest, hashed) ↦ elim (Option-cases (lock_clients sleeps t status n)) [
          | inl waits ↦ rw (hashed, start_round, waits) tt
          | inr ((r, m), locked) ↦ elim (Result-split r) [
            | inl (done, good) ↦ rw (hashed, start_round, locked, good) (made digest m)
            | inr (inl (text, bad)) ↦ rw (hashed, start_round, locked, bad) tt
            | inr (inr bad) ↦ rw (hashed, start_round, locked, bad) tt
          ]
        ]
      ]
    where
      made :
          (digest : String) (m : Node)
          → Started req old_seq (
              let (r', n'') = make_pre_prepare req old_seq status digest m in
              elim r' [
                | ok ppr ↦ some (log_and_send req ppr n'')
                | err text ↦ some (err text, n'')
                | panic ↦ some (panic, n'')
              ])
      made digest m =
          let p = make_pre_prepare req old_seq status digest m in
          elim (Result-split p.0) [
            | inl (ppr, good) ↦ rw good (
                log_and_send-Started req old_seq ppr p.1
                  (make_pre_prepare-IsFor req old_seq status digest m ppr good))
            | inr (inl (text, bad)) ↦ rw bad tt
            | inr (inr bad) ↦ rw bad tt
          ]

-- ===== src/Node/Executor/Abort.antt =====
-- A transaction that is prepared and then aborted leaves no trace in the balances and no lock.
use pbft_2pc.Prelude.{
  ap, sym, eq_refl, Option-cases, ◌∙◌, ℕ, ◌+◌, ◌%◌, ◌^◌, String, string_eq, Int64, IsInt64, true,
  false, not, ◌||◌, none, List, [], ◌∷◌, ◌++◌, length, contains, ◌==◌, All, Result, ok, err, panic,
  ◌≡◌, refl, arith, Bool-cases, inl, inr, sub64,
}
use pbft_2pc.Messages.{Transaction}
use pbft_2pc.Deps.{Bolt, Codec, WalLog}
use pbft_2pc.Db.{Database}
use pbft_2pc.Db.Balances.{get_balance, update_balances, put_balance, put_change}
use pbft_2pc.Db.Balances.Effect.{
  adjusted, reversed, map_result, get_balance-update_balances, get_balance-cases, adjusted-reversed,
}
use pbft_2pc.Db.Locks.{release_locks_db}
use pbft_2pc.Db.Locks.Exclusion.{is_locked, is_locked-release_locks_db}
use pbft_2pc.Db.Wal.{read_wal_entry}
use pbft_2pc.Node.{Node, DbUnit}
use pbft_2pc.Node.Locking.{clients_of}
use pbft_2pc.Node.Executor.{executor_rounds, undo_all}
use pbft_2pc.Node.Executor.Units.{
  undone, executed, executed_all, NoAbort, adjusted_all, change, get_balance-executed_all,
  get_balance-release_locks_db,
}
use pbft_2pc.Node.Executor.Order.{Consecutive, executor_rounds-HasRun}

-- The amounts of the transactions are 64-bit numbers.
abbrev pub Amounts : List (DbUnit × Transaction) → Type 0
Amounts us = All (λ p. IsInt64 p.1.amount) us

adjusted_comm :
    (r t : Transaction) (j : String) (b : Int64)
    → IsInt64 r.amount
    → IsInt64 t.amount
    → adjusted r j (adjusted t j b) ≡ adjusted t j (adjusted r j b)
adjusted_comm r t j b hr ht = ground arith

change_comm :
    (r : Transaction) (u : DbUnit) (t : Transaction) (j : String) (b : Int64)
    → IsInt64 r.amount
    → IsInt64 t.amount
    → adjusted r j (change u t j b) ≡ change u t j (adjusted r j b)
change_comm r u t j b hr ht = elim (Bool-cases (u.status == "" || u.status == "P")) [
  | inl moves ↦ rw moves (adjusted_comm r t j b hr ht)
  | inr rests ↦ rw rests refl
]

adjusted_all_comm :
    (us : List (DbUnit × Transaction)) (r : Transaction) (j : String) (b : Int64)
    → IsInt64 r.amount
    → Amounts us
    → adjusted r j (adjusted_all us j b) ≡ adjusted_all us j (adjusted r j b)
adjusted_all_comm [] r j b hr _ = refl
adjusted_all_comm ((u, t) ∷ us) r j b hr (ht, hs) =
    adjusted_all_comm us r j (change u t j b) hr hs
    ∙ ap (adjusted_all us j) (change_comm r u t j b hr ht)

module _ ⦃bolt : Bolt⦄ ⦃codec : Codec⦄ where
  wal-put_balance : (k : String) (b : Int64) (d : Database) → (put_balance k b d).wal ≡ d.wal
  unfolding put_balance
  wal-put_balance k b d = elim (Option-cases (bolt.put k (codec.format_int b) d.balances)) [
    | inl refused ↦ rw (refused, put_balance) refl
    | inr (b', stored) ↦ rw (stored, put_balance) refl
  ]

  wal-put_change :
      (k : String) (g : Int64 → Int64) (r : Result Int64) (d : Database)
      → (put_change k g r d).wal ≡ d.wal
  unfolding put_change
  wal-put_change k g (ok b) d = wal-put_balance k (g b) d
  wal-put_change k g (err text) d = refl
  wal-put_change k g panic d = refl

  wal-update_balances : (t : Transaction) (d : Database) → (update_balances t d).wal ≡ d.wal
  unfolding update_balances
  wal-update_balances t d =
      wal-put_change t.to _ _ (put_change t.from (λ b. sub64 b t.amount) (get_balance t.from d) d)
      ∙ wal-put_change t.from _ _ d

  wal-release_locks_db : (ks : List String) (d : Database) → (release_locks_db ks d).wal ≡ d.wal
  unfolding release_locks_db
  wal-release_locks_db ks d = refl

  wal-executed :
      (u : DbUnit) (t : Transaction) (d : Database)
      → (u.status == "A") ≡ false
      → (executed u.status u.client_seq t d).wal ≡ d.wal
  wal-executed u t d kept =
      let moved = wal-update_balances t d in
      elim (Bool-cases (u.status == "" || u.status == "P")) [
        | inl moves ↦ elim (Bool-cases (not (u.status == "P"))) [
          | inl free ↦ rw (moves, free, wal-release_locks_db) moved
          | inr held ↦ rw (moves, held) moved
        ]
        | inr rests ↦ elim (Bool-cases (not (u.status == "P"))) [
          | inl free ↦ rw (rests, free, kept, wal-release_locks_db) refl
          | inr held ↦ rw (rests, held, kept) refl
        ]
      ]

  wal-executed_all :
      (us : List (DbUnit × Transaction)) (d : Database)
      → NoAbort us
      → (executed_all us d).wal ≡ d.wal
  wal-executed_all [] d _ = refl
  wal-executed_all ((u, t) ∷ us) d (kept, rest) =
      wal-executed_all us (executed u.status u.client_seq t d) rest ∙ wal-executed u t d kept

  executed_all-append :
      (us vs : List (DbUnit × Transaction)) (d : Database)
      → executed_all (us ++ vs) d ≡ executed_all vs (executed_all us d)
  executed_all-append [] vs d = refl
  executed_all-append ((u, t) ∷ us) vs d =
      executed_all-append us vs (executed u.status u.client_seq t d)

  read_wal_entry-wal :
      (s : Int64) (d d' : Database) → d.wal ≡ d'.wal → read_wal_entry s d ≡ read_wal_entry s d'
  unfolding read_wal_entry
  read_wal_entry-wal s d d' same = rw same refl

  -- The write-ahead log holds this transaction and no other under a client sequence number.
  abbrev pub InWal : Int64 → Transaction → Database → Type 0
  InWal s t d =
      (l : WalLog) × (l.transaction ≡ t) × (read_wal_entry s d ≡ ok (record { logs = l ∷ [] }))

  get_balance-undo_all :
      (l : WalLog) (t : Transaction) (j : String) (d : Database)
      → l.transaction ≡ t
      → get_balance j (undo_all (l ∷ []) d) ≡ map_result (adjusted (reversed t) j) (get_balance j d)
  unfolding undo_all
  get_balance-undo_all l t j d same = rw (sym same) (get_balance-update_balances _ j d)

  get_balance-aborted :
      (s : Int64) (t : Transaction) (j : String) (d : Database)
      → InWal s t d
      → get_balance j (executed "A" s t d) ≡ map_result (adjusted (reversed t) j) (get_balance j d)
  get_balance-aborted s t j d (l, same, logged) =
      rw (logged, get_balance-release_locks_db) (get_balance-undo_all l t j d same)

  get_balance-prepared :
      (s : Int64) (t : Transaction) (j : String) (d : Database)
      → get_balance j (executed "P" s t d) ≡ map_result (adjusted t j) (get_balance j d)
  get_balance-prepared s t j d = get_balance-update_balances t j d

  free_aborted :
      (s : Int64) (t : Transaction) (j : String) (d : Database)
      → contains (clients_of t) j ≡ true
      → is_locked j (executed "A" s t d) ≡ false
  free_aborted s t j d known =
      ground (arith, is_locked-release_locks_db (clients_of t) j (undone s d), known)

  taken_back :
      (us : List (DbUnit × Transaction)) (t : Transaction) (j : String) (d : Database)
      → IsInt64 t.amount
      → Amounts us
      → map_result
          (adjusted (reversed t) j)
          (map_result (adjusted_all us j) (map_result (adjusted t j) (get_balance j d)))
        ≡ map_result (adjusted_all us j) (get_balance j d)
  taken_back us t j d ht hs = elim (get_balance-cases j d) [
    | inl (b, e, hb) ↦ rw e (
        ap ok (
          adjusted_all_comm us (reversed t) j (adjusted t j b) ht hs
          ∙ ap (adjusted_all us j) (adjusted-reversed t j b ht hb)))
    | inr (text, e) ↦ rw e refl
  ]

  executed_round_trip :
      (us : List (DbUnit × Transaction)) (s s' : Int64) (t : Transaction) (j : String)
      (d : Database)
      → IsInt64 t.amount
      → Amounts us
      → NoAbort us
      → InWal s t d
      → get_balance j (executed "A" s t (executed_all us (executed "P" s' t d)))
        ≡ map_result (adjusted_all us j) (get_balance j d)
  executed_round_trip us s s' t j d ht hs kept (l, same, logged) =
      let d1 = executed "P" s' t d in
      let log = wal-executed_all us d1 kept ∙ wal-update_balances t d in
      let still = read_wal_entry-wal s (executed_all us d1) d log ∙ logged in
      get_balance-aborted s t j (executed_all us d1) (l, same, still)
      ∙ ap (map_result (adjusted (reversed t) j)) (
          get_balance-executed_all us j d1 kept
          ∙ ap (map_result (adjusted_all us j)) (get_balance-prepared s' t j d))
      ∙ taken_back us t j d ht hs

  -- A transaction that is prepared and aborted moves no money. Let the executor run a unit "P" of a
  -- transaction, then units none of which aborts, then the unit "A" of the same transaction, whose
  -- write-ahead log entry holds that transaction alone. Then each client has the balance that the
  -- units in between give it, as if the transaction had not been there, and the transaction's two
  -- clients are not locked.
  pub prepared_then_aborted :
      (us : List (DbUnit × Transaction)) (u v : DbUnit) (t : Transaction) (k : ℕ) (n : Node)
      → IsInt64 n.executor_seq
      → Consecutive n.datastore n.executor_seq ((u, t) ∷ us ++ (v, t) ∷ [])
      → n.datastore ((n.executor_seq + length ((u, t) ∷ us ++ (v, t) ∷ [])) % 2 ^ 64) ≡ none
      → u.status ≡ "P"
      → v.status ≡ "A"
      → NoAbort us
      → IsInt64 t.amount
      → Amounts us
      → InWal v.client_seq t n.db
      → (n' : Node) × (executor_rounds (length ((u, t) ∷ us ++ (v, t) ∷ []) + k) n ≡ ok n')
        × ((j : String) → get_balance j n'.db ≡ map_result (adjusted_all us j) (get_balance j n.db))
        × (is_locked t.from n'.db ≡ false)
        × (is_locked t.to n'.db ≡ false)
  prepared_then_aborted us u v t k n small there missing p a kept ht hs logged =
      let (n', ran, (_, _, final)) =
        executor_rounds-HasRun ((u, t) ∷ us ++ (v, t) ∷ []) k n small there missing in
      let d1 = executed "P" u.client_seq t n.db in
      let end : n'.db ≡ executed "A" v.client_seq t (executed_all us d1) =
        final
        ∙ executed_all-append us ((v, t) ∷ []) (executed u.status u.client_seq t n.db)
        ∙ rw (p, a) refl in
      (
        n',
        ran,
        λ j.
            ap (get_balance j) end
            ∙ executed_round_trip us v.client_seq u.client_seq t j n.db ht hs kept logged,
        ap (is_locked t.from) end
            ∙ free_aborted v.client_seq t t.from (executed_all us d1)
                (ground (arith, eq_refl t.from)),
        ap (is_locked t.to) end
            ∙ free_aborted v.client_seq t t.to (executed_all us d1) (ground (arith, eq_refl t.to)),
      )

-- ===== src/Db/Balances/Effect.antt =====
-- What a transfer does to each balance of a shard, and that its reverse takes it back.
use pbft_2pc.Prelude.{
  String, string_eq, Int64, IsInt64, add64, sub64, Result, ok, err, panic, ◌≡◌, if◌then◌else◌, ◌==◌,
  Option-cases, ◌⊎◌, inl, inr, arith, true, eq_iff, ap,
}
use pbft_2pc.Messages.{Transaction}
use pbft_2pc.Deps.{Bolt, Codec}
use pbft_2pc.Db.{Database}
use pbft_2pc.Db.Balances.{get_balance, put_balance, put_change, update_balances}

abbrev pub map_result : (Int64 → Int64) → Result Int64 → Result Int64
map_result f (ok b) = ok (f b)
map_result f (err e) = err e
map_result f panic = panic

-- The balance of client `j` after transaction `t`: the sender is debited, then the receiver credited.
abbrev pub adjusted : Transaction → String → Int64 → Int64
adjusted t j b =
    let b' = if t.from == j then sub64 b t.amount else b in
    if t.to == j then add64 b' t.amount else b'

-- The transaction that `undoWAL` runs for a log entry.
abbrev pub reversed : Transaction → Transaction
reversed t = record t { from = t.to; to = t.from }

module _ ⦃bolt : Bolt⦄ ⦃codec : Codec⦄ where
  get_balance-put_balance :
      (k j : String) (v : Int64) (d : Database)
      → bolt.accepts k ≡ true
      → IsInt64 v
      → get_balance j (put_balance k v d) ≡ (if k == j then ok v else get_balance j d)
  unfolding get_balance put_balance
  get_balance-put_balance k j v d h range =
      let (b', e, reads) = bolt.put-accepted k (codec.format_int v) d.balances h in
      ground (arith, e, reads j, codec.parse-format v)

  -- A balance that is found is a 64-bit number.
  pub get_balance-cases :
      (j : String) (d : Database)
      → ((b : Int64) × (get_balance j d ≡ ok b) × IsInt64 b)
        ⊎ ((e : String) × (get_balance j d ≡ err e))
  unfolding get_balance
  get_balance-cases j d = elim (Option-cases (bolt.get j d.balances)) [
    | inl missing ↦ inr ("GetBalance(): not in this shard", rw missing)
    | inr (text, e) ↦ inl (codec.parse_int text, rw e, codec.parse_int-IsInt64 text)
  ]

  pub get_balance-put_change :
      (k j : String) (change : Int64 → Int64) (d : Database)
      → ((b : Int64) → IsInt64 (change b))
      → get_balance j (put_change k change (get_balance k d) d)
        ≡ (if k == j then map_result change (get_balance j d) else get_balance j d)
  unfolding get_balance put_change
  get_balance-put_change k j change d range = elim (Option-cases (bolt.get k d.balances)) [
    | inl missing ↦ ground (arith, missing, eq_iff k j)
    | inr (text, e) ↦
        let known = bolt.get-accepts k text d.balances e in
        let v = change (codec.parse_int text) in
        ground (arith, e, eq_iff k j, get_balance-put_balance k j v d known (range _))
  ]

  -- After UpdateBalances each client of the shard, and no other name, has the balance that the
  -- transaction gives it: debited as sender, credited as receiver, both where it is both, and
  -- otherwise the same. A client of another shard is not found, before and after.
  pub get_balance-update_balances :
      (t : Transaction) (j : String) (d : Database)
      → get_balance j (update_balances t d) ≡ map_result (adjusted t j) (get_balance j d)
  unfolding update_balances
  get_balance-update_balances t j d =
      let debited = put_change t.from (λ b. sub64 b t.amount) (get_balance t.from d) d in
      ground (
        arith,
        get_balance-put_change t.to j (λ b. add64 b t.amount) debited (λ b. omega arith),
        get_balance-put_change t.from j (λ b. sub64 b t.amount) d (λ b. omega arith),
        get_balance-cases j d,
      )

  pub adjusted-reversed :
      (t : Transaction) (j : String) (b : Int64)
      → IsInt64 t.amount
      → IsInt64 b
      → adjusted (reversed t) j (adjusted t j b) ≡ b
  adjusted-reversed t j b ha hb = ground arith

  -- Running the reverse of a transaction after it gives every client its balance back.
  update_balances-reversed :
      (t : Transaction) (j : String) (d : Database)
      → IsInt64 t.amount
      → get_balance j (update_balances (reversed t) (update_balances t d)) ≡ get_balance j d
  update_balances-reversed t j d ha = elim (get_balance-cases j d) [
    | inl (b, e, hb) ↦
        rw (get_balance-update_balances, get_balance-update_balances, e)
          (ap ok (adjusted-reversed t j b ha hb))
    | inr (text, e) ↦ rw (get_balance-update_balances, get_balance-update_balances, e)
  ]

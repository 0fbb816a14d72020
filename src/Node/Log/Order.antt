-- ===== src/Node/Log/Order.antt =====
-- A log entry only moves forward through its states, and updating one entry leaves the others.
use pbft_2pc.Prelude.{
  ◌⊎◌, inl, inr, ℕ, ltb, String, nat_eq, string_eq, Int64, ◌≤◌, ◌≡◌, ◌≢◌, refl, some, true, false,
  ◌==◌, if◌then◌else◌, bias, Option-cases, Bool-cases, inl, inr, arith, lt64,
}
use pbft_2pc.Config.{states}
use pbft_2pc.Deps.{Bolt}
use pbft_2pc.Node.{Node, TransactionLog}
use pbft_2pc.Node.Log.{advance, update_log}

ltb_le : (a b : ℕ) → ltb a b ≡ true → a ≤ b
ltb_le a b h = ground arith

not_ltb : (a b : ℕ) → ltb a b ≡ false → b ≤ a
not_ltb a b h = ground arith

pub advance-state :
    (status : String) (e : TransactionLog)
    → (record e { state = (advance status e).state } ≡ advance status e)
      × (bias e.state ≤ bias (advance status e).state)
      × (bias (states status) ≤ bias (advance status e).state)
unfolding advance
advance-state status e = elim (Bool-cases (lt64 e.state (states status))) [
  | inl less ↦ rw less (refl, ltb_le (bias e.state) (bias (states status)) less, omega arith)
  | inr not_less ↦ rw not_less (refl, omega arith, not_ltb (bias e.state) _ not_less)
]

module _ ⦃bolt : Bolt⦄ where
  -- What updateLog does to an entry e at number j: it stays, with nothing but its state changed and
  -- that never to a lower one in Go's order of int64; at the number that is updated the state is then
  -- at least the given one, and at another number the entry is the same.
  update_log-forward :
      (seq j : Int64) (status : String) (n : Node) (e : TransactionLog)
      → n.transaction_log j ≡ some e
      → (e' : TransactionLog) × ((update_log seq status n).transaction_log j ≡ some e')
        × (record e { state = e'.state } ≡ e')
        × (bias e.state ≤ bias e'.state)
        × ((seq ≢ j) ⊎ (bias (states status) ≤ bias e'.state))
        × ((seq ≡ j) ⊎ (e' ≡ e))
  unfolding update_log
  update_log-forward seq j status n e h =
      let s = advance-state status e in
      (
        (if seq == j then advance status e else e),
        ground (arith, s),
        ground (arith, s),
        ground (arith, s),
        ground (arith, s),
        ground arith,
      )

  -- The entry that is updated.
  pub update_log_self :
      (seq : Int64) (status : String) (n : Node) (e : TransactionLog)
      → n.transaction_log seq ≡ some e
      → (update_log seq status n).transaction_log seq ≡ some (advance status e)
  unfolding update_log
  update_log_self seq status n e h = ground (arith, h)

  -- Only the log is updated.
  pub update_log-datastore :
      (seq : Int64) (status : String) (n : Node) → (update_log seq status n).datastore ≡ n.datastore
  unfolding update_log
  update_log-datastore seq status n = elim (Option-cases (n.transaction_log seq)) [
    | inl missing ↦ ground (arith, missing)
    | inr (e, found) ↦ ground (arith, found)
  ]

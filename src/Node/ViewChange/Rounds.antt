-- ===== src/Node/ViewChange/Rounds.antt =====
-- A node starts the change to a view once.
use pbft_2pc.Prelude.{Int64, le64, true, false, ◌≡◌, refl, arith, Bool-cases, inl, inr}
use pbft_2pc.Deps.{Bolt, Crypto}
use pbft_2pc.Node.{Node, emit_all}
use pbft_2pc.Node.ViewChange.{skips_view_change, send_view_change}

module _ ⦃bolt : Bolt⦄ ⦃crypto : Crypto⦄ where
  send_view_change_skipped :
      (view : Int64) (n : Node) → skips_view_change view n ≡ true → send_view_change view n ≡ n
  unfolding send_view_change
  send_view_change_skipped view n h = rw (h, send_view_change) refl

  skips_earlier :
      (view earlier : Int64) (n : Node)
      → le64 earlier view ≡ true
      → skips_view_change view n ≡ true
      → skips_view_change earlier n ≡ true
  unfolding skips_view_change
  skips_earlier view earlier n h skipped = ground arith

  skips_after :
      (view earlier : Int64) (n : Node)
      → le64 earlier view ≡ true
      → skips_view_change view n ≡ false
      → skips_view_change earlier (send_view_change view n) ≡ true
  unfolding skips_view_change send_view_change emit_all
  skips_after view earlier n h going = rw (going, h) (ground arith)

  send_skipped :
      (view earlier : Int64) (n : Node)
      → le64 earlier view ≡ true
      → skips_view_change earlier (send_view_change view n) ≡ true
  send_skipped view earlier n h = elim (Bool-cases (skips_view_change view n)) [
    | inl skipped ↦
        rw (send_view_change_skipped view n skipped) (skips_earlier view earlier n h skipped)
    | inr going ↦ skips_after view earlier n h going
  ]

  -- A node that has started the change to a view does not start it again: a second call for that view,
  -- or one for an earlier view, changes nothing and sends nothing.
  pub send_view_change_once :
      (view earlier : Int64) (n : Node)
      → le64 earlier view ≡ true
      → send_view_change earlier (send_view_change view n) ≡ send_view_change view n
  send_view_change_once view earlier n h =
      send_view_change_skipped earlier (send_view_change view n) (send_skipped view earlier n h)

-- ===== src/Node/Log/Leaders.antt =====
-- Which server leads a cluster in a view.
use pbft_2pc.Prelude.{ℕ, ◌+◌, ◌-◌, ◌*◌, ◌%◌, ◌^◌, ◌<◌, ◌≡◌, arith}
use pbft_2pc.Node.Log.{leader_number}

-- In a view from 1 on, the leader of cluster c is one of its four servers 4(c-1)+1 to 4(c-1)+4: the
-- number (view-1) mod 4 of them, so that the four servers take turns.
pub leader_number_turns :
    (cluster view : ℕ)
    → 0 < cluster
    → cluster < 2 ^ 60
    → 0 < view
    → view < 2 ^ 63
    → leader_number cluster view ≡ 4 * (cluster - 1) + (view - 1) % 4 + 1
unfolding leader_number
leader_number_turns cluster view c0 c1 v0 v1 = ground arith

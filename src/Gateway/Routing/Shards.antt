-- ===== src/Gateway/Routing/Shards.antt =====
-- The gateway's choice of a cluster against the ranges of clients in config.json.
use pbft_2pc.Prelude.{ℕ, ◌+◌, ◌-◌, ◌/◌, ◌%◌, ◌≤◌, ◌≡◌, ◌≢◌, ◌↔◌, arith}
use pbft_2pc.Gateway.Routing.{cluster_number}

-- The number of the cluster whose range has a client: the first has 1 to 1000, the second 1001 to 2000,
-- the third 2001 to 3000.
abbrev pub shard : ℕ → ℕ
shard client = (client - 1) / 1000 + 1

-- For a client of the three clusters the gateway chooses the cluster whose range has the client,
-- exactly if the client's number is no multiple of 1000.
pub cluster_number_iff :
    (client : ℕ)
    → 1 ≤ client
    → client ≤ 3000
    → (cluster_number client ≡ shard client) ↔ (client % 1000 ≢ 0)
unfolding cluster_number
cluster_number_iff client low high = ground arith

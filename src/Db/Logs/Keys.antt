-- ===== src/Db/Logs/Keys.antt =====
-- The keys of the saved transactions: a number and its eight bytes.
use pbft_2pc.Prelude.{ℕ, ◌^◌, ◌<◌, ◌≡◌, arith}
use pbft_2pc.Db.Logs.{itob, btoi}

-- The eight bytes of a key read back as the number that they were made from, for every uint64.
btoi-itob : (v : ℕ) → v < 2 ^ 64 → btoi (itob v) ≡ v
unfolding btoi itob
btoi-itob v h = omega arith

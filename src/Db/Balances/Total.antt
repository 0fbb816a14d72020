-- ===== src/Db/Balances/Total.antt =====
-- Money is neither made nor lost: inside one shard, and between the two shards of a transaction.
use pbft_2pc.Prelude.{
  ℕ, ◌+◌, ◌*◌, ◌%◌, ◌^◌, String, string_eq, Int64, IsInt64, add64, ok, value_or, ◌≡◌, if◌then◌else◌,
  ◌==◌, List, [], ◌∷◌, All, arith, ap,
}
use pbft_2pc.Messages.{Transaction}
use pbft_2pc.Deps.{Bolt, Codec}
use pbft_2pc.Db.{Database}
use pbft_2pc.Db.Balances.{get_balance, update_balances}
use pbft_2pc.Db.Balances.Effect.{get_balance-update_balances}

-- How often a client is listed.
abbrev pub occurs : String → List String → ℕ
occurs k [] = 0
occurs k (j ∷ js) = (if k == j then 1 else 0) + occurs k js

module _ ⦃bolt : Bolt⦄ ⦃codec : Codec⦄ where
  -- The sum of the balances of the listed clients, as an int64.
  abbrev pub total : List String → Database → Int64
  total [] d = 0
  total (j ∷ js) d = add64 (value_or (get_balance j d) 0) (total js d)

  -- Every listed client has a balance in this shard.
  abbrev pub AllInShard : List String → Database → Type 0
  AllInShard ids d = All (λ j. (b : Int64) × (get_balance j d ≡ ok b)) ids

  pub total-update_balances :
      (t : Transaction) (ids : List String) (d : Database)
      → IsInt64 t.amount
      → AllInShard ids d
      → (total ids (update_balances t d) + occurs t.from ids * t.amount) % 2 ^ 64
        ≡ (total ids d + occurs t.to ids * t.amount) % 2 ^ 64
  total-update_balances t [] d ha h = omega arith
  total-update_balances t (j ∷ js) d ha ((b, e), hs) =
      rw (get_balance-update_balances, e) (ground (arith, total-update_balances t js d ha hs))

  -- A transaction whose sender and receiver are listed equally often, over the clients of two shards
  -- that both run it, leaves the sum over both shards as it was. With the second list empty this is
  -- a transaction inside one shard.
  pub transfer_conserves :
      (t : Transaction) (ids ids' : List String) (d d' : Database)
      → IsInt64 t.amount
      → AllInShard ids d
      → AllInShard ids' d'
      → occurs t.from ids + occurs t.from ids' ≡ occurs t.to ids + occurs t.to ids'
      → add64 (total ids (update_balances t d)) (total ids' (update_balances t d'))
        ≡ add64 (total ids d) (total ids' d')
  transfer_conserves t ids ids' d d' ha h h' same =
      let m = ap (λ (n : ℕ). n * t.amount) same in
      omega (arith, m, total-update_balances t ids d ha h, total-update_balances t ids' d' ha h')

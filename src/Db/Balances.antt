-- ===== src/Db/Balances.antt =====
-- db/balances.go: the balances of the clients of a shard.
pub mod Effect
pub mod Total
use Prim.Native.String.{◌++◌ as string_append}
use pbft_2pc.Prelude.{
  String, string_eq, Int64, add64, sub64, Result, ok, err, panic, or_fail, ◌>>=◌, Option, none,
  some, ℕ, zero, suc, ◌+◌, ◌-◌, bias, List, map,
}
use pbft_2pc.Messages.{Transaction}
use pbft_2pc.Config.{initial_balance}
use pbft_2pc.Deps.{Bolt, Codec}
use pbft_2pc.Db.{Database}

module _ ⦃bolt : Bolt⦄ ⦃codec : Codec⦄ where
  unfoldable pub get_balance : String → Database → Result Int64
  get_balance client d = do
    balance ← or_fail (bolt.get client d.balances) "GetBalance(): not in this shard"
    ok (codec.parse_int balance)

  -- The database, changed or not, when the error of the call is ignored.
  unfoldable pub put_balance : String → Int64 → Database → Database
  put_balance client balance d = elim (bolt.put client (codec.format_int balance) d.balances) [
    | none ↦ d
    | some b ↦ record d { balances = b }
  ]

  -- What `UpdateBalances` does on the result of each `GetBalance`.
  unfoldable pub put_change : String → (Int64 → Int64) → Result Int64 → Database → Database
  unfolding put_balance
  put_change client change (ok balance) d = put_balance client (change balance) d
  put_change client change (err e) d = d
  put_change client change panic d = d

  unfoldable pub update_balances : Transaction → Database → Database
  unfolding get_balance put_change
  update_balances t d =
      let d' = put_change t.from (λ b. sub64 b t.amount) (get_balance t.from d) d in
      put_change t.to (λ b. add64 b t.amount) (get_balance t.to d') d'

  -- The loop `for i := i; i <= end; i++` of `InitiateBalances`, with the number of rounds left. An
  -- error of `Put` ends it, and the whole transaction is rolled back.
  unfoldable pub put_initial : ℕ → Int64 → bolt.Bucket String → Option (bolt.Bucket String)
  put_initial zero i b = some b
  put_initial (suc n) i b =
      elim (bolt.put (codec.format_int i) (codec.format_int initial_balance) b) [
        | none ↦ none
        | some b' ↦ put_initial n (add64 i 1) b'
      ]

  unfoldable pub initiate_balances : String → String → Database → Database
  unfolding put_initial
  initiate_balances start_id end_id d =
      let first = codec.parse_int start_id in
      let last = codec.parse_int end_id in
      elim (put_initial (bias last + 1 - bias first) first d.balances) [
        | none ↦ d
        | some b ↦ record d { balances = b }
      ]

module _ ⦃bolt : Bolt⦄ where
  -- `PrintAllBalances`, as the lines that it logs
  unfoldable pub print_all_balances : Database → List String
  print_all_balances d =
      map (λ e. string_append e.0 (string_append ": " (string_append e.1 "\n")))
        (bolt.entries d.balances)

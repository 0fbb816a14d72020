-- ===== src/Tests/Execution.antt =====
-- An executor with four numbers ahead: a prepared transaction, another one, the abort of the first,
-- and none.
use pbft_2pc.Prelude.{
  ◌+◌, arith, String, string_eq, nat_eq, list_eq, Int64, false, none, some, List, [], ◌∷◌, ◌++◌,
  Table, ◌==◌, if◌then◌else◌, ok, ◌≡◌, refl, length,
}
use pbft_2pc.Messages.{Transaction}
use pbft_2pc.Instances.{list_bolt, decimal_codec, toy_crypto, sample, sample_log}
use pbft_2pc.Db.{create_buckets}
use pbft_2pc.Db.Balances.{initiate_balances, put_initial, get_balance}
use pbft_2pc.Db.Balances.Effect.{map_result}
use pbft_2pc.Db.Locks.Exclusion.{is_locked}
use pbft_2pc.Db.Wal.{read_wal_entry, current_entry, append_bucket, append_to_wal_entry}
use pbft_2pc.Node.{Node, DbUnit, new_node}
use pbft_2pc.Node.Executor.{executor_rounds}
use pbft_2pc.Node.Executor.Units.{adjusted_all}
use pbft_2pc.Node.Executor.Order.{HasRun, executor_rounds-HasRun, executor_rounds_balances}
use pbft_2pc.Node.Executor.Abort.{prepared_then_aborted}
use pbft_2pc.Tests.Data.{start_node}

abbrev pub small : Transaction
small = record sample { to = "8"; amount = 1; client_seq = 6 }

abbrev pub unit_of : Int64 → String → Transaction → DbUnit
unit_of i status t = record {
  seq = i;
  transaction = some t;
  status = status;
  timestamp = 50;
  client_seq = t.client_seq;
}

abbrev pub units : Table Int64 DbUnit
units i =
    if i == 1
    then some (unit_of 1 "P" sample)
    else if i == 2
    then some (unit_of 2 "" small)
    else if i == 3
    then some (unit_of 3 "A" sample)
    else none

abbrev first_two : List (DbUnit × Transaction)
first_two = (unit_of 1 "P" sample, sample) ∷ (unit_of 2 "" small, small) ∷ []

abbrev pub waiting : Table Int64 DbUnit → Node
waiting m =
    let n = start_node "S1" in
    record n { datastore = m; db = (append_to_wal_entry 5 (sample_log ∷ []) n.db).1 }

abbrev two_units : Table Int64 DbUnit
two_units i = if i == 3 then none else units i

executor_rounds-HasRun_example :
    (n' : Node) × (executor_rounds (length first_two + 4) (waiting two_units) ≡ ok n')
    × HasRun first_two (waiting two_units) n'
unfolding new_node
executor_rounds-HasRun_example =
    executor_rounds-HasRun first_two 4 (waiting two_units) (ground arith)
      (refl, refl, (refl, refl, tt)) refl

executor_rounds_balances_example :
    (n' : Node) × (executor_rounds (length first_two + 4) (waiting two_units) ≡ ok n')
    × ((j : String)
        → get_balance j n'.db
          ≡ map_result (adjusted_all first_two j) (get_balance j (waiting two_units).db))
unfolding new_node
executor_rounds_balances_example =
    executor_rounds_balances first_two 4 (waiting two_units) (ground arith)
      (refl, refl, (refl, refl, tt)) refl (refl, (refl, tt))

abbrev between : List (DbUnit × Transaction)
between = (unit_of 2 "" small, small) ∷ []

abbrev pub three : List (DbUnit × Transaction)
three = (unit_of 1 "P" sample, sample) ∷ between ++ (unit_of 3 "A" sample, sample) ∷ []

logged : read_wal_entry 5 (waiting units).db ≡ ok (record { logs = sample_log ∷ [] })
unfolding read_wal_entry current_entry append_bucket append_to_wal_entry new_node create_buckets
    initiate_balances put_initial
logged = refl

prepared_then_aborted_example :
    (n' : Node) × (executor_rounds (length three + 0) (waiting units) ≡ ok n')
    × ((j : String)
        → get_balance j n'.db
          ≡ map_result (adjusted_all between j) (get_balance j (waiting units).db))
    × (is_locked "7" n'.db ≡ false)
    × (is_locked "1500" n'.db ≡ false)
unfolding new_node
prepared_then_aborted_example =
    prepared_then_aborted between (unit_of 1 "P" sample) (unit_of 3 "A" sample) sample 0
      (waiting units) (ground arith) (refl, refl, (refl, refl, (refl, refl, tt))) refl refl refl
      (refl, tt) (ground arith) (ground arith, tt) (sample_log, refl, logged)

-- ===== src/Node/Executor.antt =====
-- The executor goroutine of node/node.go, which runs the committed transactions in the order of their
-- sequence numbers; undoWAL of node/utils.go and replyToClient of node/operations.go.
pub mod Units
pub mod Order
pub mod Conservation
pub mod Abort
use pbft_2pc.Prelude.{
  ℕ, zero, suc, String, string_eq, Int64, add64, Bool, true, false, not, Option, none, some, List,
  [], ◌∷◌, ◌==◌, if◌then◌else◌, ◌||◌, Result, ok, err, panic, or_panic, ◌>>=◌,
}
use pbft_2pc.Messages.{Transaction, Reply, SignedReply, Message}
use pbft_2pc.Deps.{Bolt, Codec, Crypto, WalLog}
use pbft_2pc.Cryptox.{sign_message}
use pbft_2pc.Db.{Database}
use pbft_2pc.Db.Balances.{update_balances}
use pbft_2pc.Db.Wal.{read_wal_entry}
use pbft_2pc.Node.{Node, DbUnit, Effect, emit}
use pbft_2pc.Node.Locking.{release_locks}

module _ ⦃bolt : Bolt⦄ ⦃codec : Codec⦄ where
  -- The loop of `undoWAL`. The reverse transaction has no clusters and no client sequence number,
  -- which UpdateBalances does not read.
  unfoldable pub undo_all : List WalLog → Database → Database
  undo_all [] d = d
  undo_all (l ∷ ls) d = undo_all ls (
      update_balances
        (record {
          from = l.transaction.to;
          to = l.transaction.from;
          amount = l.transaction.amount;
          cluster_from = "";
          cluster_to = "";
          client_seq = 0;
        })
        d)

  unfoldable pub undo_wal : Int64 → Node → Node
  undo_wal client_seq n = elim (read_wal_entry client_seq n.db) [
    | ok entry ↦ record n { db = undo_all entry.logs n.db }
    | err text ↦ n
    | panic ↦ n
  ]

  -- `executeDatastoreLog` with the transaction dereferenced.
  unfoldable pub execute_datastore_log : DbUnit → Transaction → Node → Node
  execute_datastore_log u t n =
      let n' =
        if u.status == "" || u.status == "P"
        then record n { db = update_balances t n.db }
        else if u.status == "A"
        then undo_wal u.client_seq n
        else n in
      let n'' = if not (u.status == "P") then release_locks t n' else n' in
      record n'' { execution_count = add64 n''.execution_count 1 }

  -- The reply and the change of the log that `executor` starts after an execution.
  unfoldable pub announce : DbUnit → Transaction → Node → Node
  announce u t n =
      if u.status == "" || u.status == "C"
      then emit (Effect.go_update_log u.seq "executed")
          (emit (Effect.go_reply u.timestamp true t.client_seq) n)
      else if u.status == "A"
      then emit (Effect.go_update_log u.seq "executed")
          (emit (Effect.go_reply u.timestamp false t.client_seq) n)
      else n

  -- One round of the loop of `executor`: a sleep if the next unit is not there.
  unfoldable pub executor_step : Node → Result Node
  executor_step n = elim (n.datastore n.executor_seq) [
    | none ↦ ok n
    | some u ↦ do
      t ← or_panic u.transaction
      let n' = announce u t (execute_datastore_log u t n)
      ok (record n' { executor_seq = add64 n'.executor_seq 1 })
  ]

  -- Some rounds of the loop with nothing else running.
  unfoldable pub executor_rounds : ℕ → Node → Result Node
  executor_rounds zero n = ok n
  executor_rounds (suc k) n = executor_step n >>= λ n'. executor_rounds k n'

module _ ⦃bolt : Bolt⦄ ⦃crypto : Crypto⦄ where
  unfoldable pub reply_to_client : Int64 → Bool → Int64 → Node → Node
  reply_to_client timestamp result client_seq n =
      let reply : Reply = record {
        view = n.view;
        timestamp = timestamp;
        server = n.id;
        result = result;
        client_seq = client_seq;
      } in
      elim (sign_message n.private_key (Message.reply reply)) [
        | ok signature ↦
            emit (Effect.send_reply (record { reply = reply; signature = signature })) n
        | err text ↦ n
        | panic ↦ n
      ]

-- ===== src/Gateway/Execution.antt =====
-- executeTransactions of gateway/operations.go, and the first choice of the menu of
-- gateway/gateway.go, which runs the next set.
pub mod Numbers
use pbft_2pc.Prelude.{
  ℕ, zero, suc, String, nat_eq, Int64, add64, le64, Bool, Option, none, some, List, [], ◌∷◌, ◌++◌,
  assign, Table, if◌then◌else◌, Result, ok, err, panic, ◌>>=◌,
}
use pbft_2pc.Messages.{Transaction, SignedClientRequest}
use pbft_2pc.Deps.{Codec, Crypto, PrivateKey}
use pbft_2pc.Gateway.Input.{Plan}
use pbft_2pc.Gateway.Routing.{address, get_signed_client_req}
use pbft_2pc.Gateway.Servers.{ServerCall, set_live_servers, set_byzantine_servers}

-- The fields of the `Gateway` that a set changes, with the local `set` of `main`. `sent` has the
-- requests of the goroutines `sendTransaction`, and `calls` those to the servers, in order.
pub record Progress : Type 0 where
  pub set : Int64
  pub current_set : Int64
  pub max_executed_set : Int64
  pub highest_seq : Int64
  pub seq_transaction_map : Table Int64 Transaction
  pub timestamp_seq_map : Table Int64 Int64
  pub sent : List SignedClientRequest
  pub calls : List ServerCall

unfoldable pub start_progress : Progress
start_progress = record {
  set = 1;
  current_set = 0;
  max_executed_set = 0;
  highest_seq = 0;
  seq_transaction_map = λ i. none;
  timestamp_seq_map = λ i. none;
  sent = [];
  calls = [];
}

module _ ⦃codec : Codec⦄ ⦃crypto : Crypto⦄ where
  -- One round of the loop; `timestamp` is the time in milliseconds. The map holds a pointer, through
  -- which it sees the fields that are filled in after the store.
  unfoldable pub start_transaction : PrivateKey → Int64 → Transaction → Progress → Progress
  unfolding address get_signed_client_req
  start_transaction key timestamp transaction g =
      let seq = add64 g.highest_seq 1 in
      let t = address seq transaction in
      record g {
        highest_seq = seq;
        seq_transaction_map = assign seq (some t) g.seq_transaction_map;
        timestamp_seq_map = assign timestamp (some seq) g.timestamp_seq_map;
        sent = g.sent ++ get_signed_client_req key t timestamp ∷ [];
      }

  -- `executeTransactions`, with the time at which each sequence number is taken.
  unfoldable pub execute_transactions :
      PrivateKey → (Int64 → Int64) → List Transaction → Progress → Progress
  unfolding start_transaction
  execute_transactions key clock [] g = g
  execute_transactions key clock (t ∷ ts) g =
      execute_transactions key clock ts (start_transaction key (clock (add64 g.highest_seq 1)) t g)

  -- The choice "1" of the menu: `clients` are the servers with a connection, `nodes` those of the
  -- clusters.
  unfoldable pub next_set :
      PrivateKey → (Int64 → Int64) → List String → List String → Plan → Progress → Result Progress
  unfolding execute_transactions set_live_servers set_byzantine_servers
  next_set key clock clients nodes plan g =
      let i = g.set in
      if le64 i plan.max_set_num
      then (do
        risen ← set_live_servers clients nodes (plan.live_servers_map i)
        faulty ← set_byzantine_servers clients nodes (plan.byzantine_servers_map i)
        ok (
            let g' =
              execute_transactions key clock (plan.set_transactions_map i)
                (record g { current_set = i; calls = g.calls ++ risen ++ faulty }) in
            record g' { max_executed_set = i; set = add64 i 1 }))
      else ok g

  -- The choice made several times.
  unfoldable pub next_sets :
      ℕ
      → PrivateKey
      → (Int64 → Int64)
      → List String
      → List String
      → Plan
      → Progress
      → Result Progress
  unfolding next_set
  next_sets zero key clock clients nodes plan g = ok g
  next_sets (suc k) key clock clients nodes plan g =
      next_set key clock clients nodes plan g >>= λ g'. next_sets k key clock clients nodes plan g'

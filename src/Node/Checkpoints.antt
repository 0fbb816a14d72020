-- ===== src/Node/Checkpoints.antt =====
-- Checkpoints: the handler Checkpoint of node/rpc.go, validateCheckpoint and the conversions of
-- node/utils.go, and validateCheckpointCerts of node/operations.go.
pub mod Forgery
pub mod Waiting
use pbft_2pc.Prelude.{
  ℕ, String, string_eq, nat_eq, Int64, add64, lt64, max64, Bool, true, false, not, Option, none,
  some, List, [], ◌∷◌, ◌++◌, map, select, length, leb, assign, ◌==◌, if◌then◌else◌, ◌&&◌, ◌+◌, ◌*◌,
  Result, ok, err, panic, value_or, or_fail, fail_if, ◌>>=◌, ◌>>◌, is_empty,
}
use pbft_2pc.Strings.{string_leb}
use pbft_2pc.Messages.{SignedCheckpointRequest, BalanceStructList, BalanceStruct, Message}
use pbft_2pc.Config.{f}
use pbft_2pc.Deps.{Bolt, Crypto}
use pbft_2pc.Cryptox.{verify_signature, md5_hash_balances}
use pbft_2pc.Node.{Node, CheckpointData, Effect, emit}
use pbft_2pc.Node.Log.{get_public_key}
use pbft_2pc.Node.Certs.{verify_ignoring}

abbrev pub Balances : Type 0
Balances = List (String × Int64)

-- `balances[client] = amount` on a map that is iterated: its pairs, in the order of assignment.
unfoldable pub put_pair : String → Int64 → Balances → Balances
put_pair k v [] = (k, v) ∷ []
put_pair k v (e ∷ es) = if e.0 == k then (k, v) ∷ es else e ∷ put_pair k v es

unfoldable pub convert_from : Balances → BalanceStructList → Balances
convert_from acc [] = acc
convert_from acc (b ∷ bs) = convert_from (put_pair b.client b.amount acc) bs

unfoldable pub convert_proto_balances_to_map : BalanceStructList → Balances
convert_proto_balances_to_map bs = convert_from [] bs

-- `sort.Strings` on the keys, each with its amount. A map has each key once.
unfoldable pub insert_key : String × Int64 → Balances → Balances
insert_key e [] = e ∷ []
insert_key e (d ∷ ds) = if string_leb e.0 d.0 then e ∷ d ∷ ds else d ∷ insert_key e ds

unfoldable pub sort_keys : Balances → Balances
sort_keys [] = []
sort_keys (e ∷ es) = insert_key e (sort_keys es)

unfoldable pub convert_balances_to_proto : Balances → BalanceStructList
convert_balances_to_proto bs = map (λ e. record { client = e.0; amount = e.1 }) (sort_keys bs)

module _ ⦃bolt : Bolt⦄ where
  -- The data of a sequence number after one more certificate with the same digest.
  unfoldable pub add_cert : SignedCheckpointRequest → CheckpointData → CheckpointData
  add_cert req c =
      let certs = c.certs ++ req ∷ [] in
      record c {
        certs = certs;
        stable = elim (length certs == 2 * f + 1) [ true ↦ true | false ↦ c.stable ];
      }

  -- What a node does when a checkpoint becomes stable.
  unfoldable pub make_stable : Int64 → CheckpointData → Node → Node
  make_stable seq c n =
      let n' =
        if lt64 n.last_stable seq
        then record n {
          last_stable = seq;
          last_stable_balances = c.balances;
          seq = max64 n.seq (add64 seq 1);
        }
        else n in
      emit (Effect.go_collect_garbage seq)
        (record n' { low_water = add64 seq 1; high_water = add64 (add64 seq 1) 50 })

  -- `validateCheckpoint` after the signature, on the data that the node has for the number.
  unfoldable pub add_checkpoint : SignedCheckpointRequest → Option CheckpointData → Node → Node
  add_checkpoint req none n =
      let seq = req.checkpoint.sequence in
      record n {
        checkpoint_certs =
            assign seq
              (some (record {
                digest = "";
                stable = false;
                waiting = req ∷ [];
                balances = [];
                certs = [];
              }))
              n.checkpoint_certs;
      }
  add_checkpoint req (some c) n =
      let seq = req.checkpoint.sequence in
      let c' = add_cert req c in
      if c.digest == req.checkpoint.digest
      then (let n' = if length c'.certs == 2 * f + 1 then make_stable seq c' n else n in
          record n' { checkpoint_certs = assign seq (some c') n'.checkpoint_certs })
      else if c.digest == ""
      then record n {
        checkpoint_certs =
            assign seq (some (record c { waiting = c.waiting ++ req ∷ [] })) n.checkpoint_certs;
      }
      else n

module _ ⦃bolt : Bolt⦄ ⦃crypto : Crypto⦄ where
  -- `none` where the mutex of the certificates is taken and never released.
  unfoldable pub validate_checkpoint :
      SignedCheckpointRequest → Node → Option (Result (Unit {0}) × Node)
  validate_checkpoint req n =
      let checked = do
        key ← get_public_key req.checkpoint.node_id n
        verify_signature key (Message.checkpoint req.checkpoint) req.signature
      in elim checked [
        | ok done ↦
            if n.checkpoint_certs_locked
            then none
            else some (ok tt, add_checkpoint req (n.checkpoint_certs req.checkpoint.sequence) n)
        | err text ↦ some (err text, n)
        | panic ↦ some (panic, n)
      ]

  -- The handler `Checkpoint`
  unfoldable pub checkpoint : SignedCheckpointRequest → Node → Option (Result (Unit {0}) × Node)
  checkpoint req n = if not n.live then some (err "not live", n) else validate_checkpoint req n

  -- The loop of `validateCheckpointCerts`
  unfoldable pub select_checkpoint_certs :
      String → Node → List SignedCheckpointRequest → Result (List SignedCheckpointRequest)
  select_checkpoint_certs digest n [] = ok []
  select_checkpoint_certs digest n (r ∷ rs) =
      let rest = select_checkpoint_certs digest n rs in
      elim (verify_ignoring r.checkpoint.node_id (Message.checkpoint r.checkpoint) r.signature n) [
        | ok done ↦ if digest == r.checkpoint.digest then (rest >>= λ cs. ok (r ∷ cs)) else rest
        | err text ↦ rest
        | panic ↦ panic
      ]

  -- The end of `validateCheckpointCerts`. A quorum is stored under the mutex, which stays locked:
  -- there is no `Unlock`. `none` where the mutex was locked before.
  unfoldable pub store_checkpoint_certs :
      Int64
      → String
      → Balances
      → List SignedCheckpointRequest
      → Node
      → Option (Result (Unit {0}) × Node)
  store_checkpoint_certs seq digest state certs n =
      if leb (2 * f + 1) (length certs)
      then (if n.checkpoint_certs_locked
          then none
          else some (
            ok tt,
            record n {
              checkpoint_certs_locked = true;
              checkpoint_certs =
                  assign seq
                    (some (record {
                      stable = true;
                      digest = digest;
                      balances = state;
                      certs = certs;
                      waiting = [];
                    }))
                    n.checkpoint_certs;
            },
          ))
      else some (err "checkpoint certs validation failed", n)

  unfoldable pub validate_checkpoint_certs :
      Int64 → List SignedCheckpointRequest → Balances → Node → Option (Result (Unit {0}) × Node)
  validate_checkpoint_certs seq reqs state n =
      let digest = value_or (md5_hash_balances state) "" in
      if seq == 0 then some (ok tt, n) else elim (select_checkpoint_certs digest n reqs) [
        | ok certs ↦ store_checkpoint_certs seq digest state certs n
        | err text ↦ some (err text, n)
        | panic ↦ some (panic, n)
      ]

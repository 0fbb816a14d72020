-- ===== src/Db/Logs.antt =====
-- db/logs.go: the committed transactions, under keys that number them.
pub mod Keys
use pbft_2pc.Prelude.{
  String, nat_eq, list_eq, Int64, Result, ok, err, panic, or_fail, Option, none, some, List, [],
  ◌∷◌, ℕ, zero, suc, ◌+◌, ◌*◌, ◌/◌, ◌%◌, ◌++◌,
}
use pbft_2pc.Messages.{Bytes, Transaction}
use pbft_2pc.Deps.{Bolt, Codec, SavedUnit}
use pbft_2pc.Db.{Database}

-- `binary.BigEndian.PutUint64` on `n` bytes: the most significant byte first.
unfoldable pub put_be : ℕ → ℕ → Bytes
put_be zero v = []
put_be (suc n) v = put_be n (v / 256) ++ (v % 256) ∷ []

unfoldable pub itob : ℕ → Bytes
unfolding put_be
itob v = put_be 8 v

-- `binary.BigEndian.Uint64`, with the value of the bytes read so far.
unfoldable pub be_from : ℕ → Bytes → ℕ
be_from acc [] = acc
be_from acc (b ∷ bs) = be_from (acc * 256 + b) bs

unfoldable pub btoi : Bytes → ℕ
unfolding be_from
btoi v = be_from 0 v

module _ ⦃bolt : Bolt⦄ ⦃codec : Codec⦄ where
  unfoldable pub serialize_db_unit : Int64 → Option Transaction → String → Result String
  serialize_db_unit seq transaction status =
      or_fail
        (codec.marshal_unit (record { seq = seq; transaction = transaction; status = status }))
        "json.Marshal failed"

  unfoldable pub deserialize_db_unit : String → Option SavedUnit
  deserialize_db_unit text = codec.unmarshal_unit text

  -- `SaveTransactionToDBBytes`; the rollback also takes back the number drawn.
  unfoldable pub save_bytes : String → Database → Result (Unit {0}) × Database
  unfolding itob
  save_bytes text d =
      let (id, b) = bolt.next_sequence d.transactions in
      elim (bolt.put (itob id) text b) [
        | none ↦ (err "Put failed", d)
        | some b' ↦ (ok tt, record d { transactions = b' })
      ]

  unfoldable pub save_transaction_to_db :
      Int64 → Option Transaction → String → Database → Result (Unit {0}) × Database
  unfolding serialize_db_unit save_bytes
  save_transaction_to_db seq transaction status d =
      elim (serialize_db_unit seq transaction status) [
        | ok text ↦ save_bytes text d
        | err text ↦ (err text, d)
        | panic ↦ (panic, d)
      ]

  unfoldable pub deserialize_all : List (Bytes × String) → List SavedUnit
  unfolding deserialize_db_unit
  deserialize_all [] = []
  deserialize_all (e ∷ es) =
      let rest = deserialize_all es in
      elim (deserialize_db_unit e.1) [ none ↦ rest | some u ↦ u ∷ rest ]

  unfoldable pub get_all_transaction_blocks : Database → List SavedUnit
  unfolding deserialize_all
  get_all_transaction_blocks d = deserialize_all (bolt.entries d.transactions)

-- ===== src/Db/Wal.antt =====
-- db/wal.go: the write-ahead log, one entry for each client sequence number.
pub mod Entries
use Prim.Native.String.{◌++◌ as string_append}
use pbft_2pc.Prelude.{
  String, string_eq, Int64, Result, ok, err, panic, or_fail, ◌>>=◌, Option, none, some, List, [],
  ◌∷◌, ◌++◌,
}
use pbft_2pc.Deps.{Bolt, Codec, WalLog, WalEntry}
use pbft_2pc.Db.{Database}

module _ ⦃bolt : Bolt⦄ ⦃codec : Codec⦄ where
  -- The entry that is there, or the empty one.
  unfoldable pub current_entry : Option String → Result WalEntry
  current_entry none = ok (record { logs = [] })
  current_entry (some text) =
      or_fail (codec.unmarshal_wal text) "failed to deserialize existing WALEntry"

  unfoldable pub append_bucket :
      Int64 → List WalLog → bolt.Bucket String → Result (bolt.Bucket String)
  unfolding current_entry
  append_bucket client_seq new_logs b = do
    entry ← current_entry (bolt.get (codec.format_int client_seq) b)
    let updated = record entry { logs = entry.logs ++ new_logs }
    text ← or_fail (codec.marshal_wal updated) "failed to serialize updated WALEntry"
    or_fail (bolt.put (codec.format_int client_seq) text b) "Put failed"

  unfoldable pub append_to_wal_entry : Int64 → List WalLog → Database → Result (Unit {0}) × Database
  unfolding append_bucket
  append_to_wal_entry client_seq new_logs d = elim (append_bucket client_seq new_logs d.wal) [
    | ok b ↦ (ok tt, record d { wal = b })
    | err text ↦ (err text, d)
    | panic ↦ (panic, d)
  ]

  unfoldable pub read_wal_entry : Int64 → Database → Result WalEntry
  read_wal_entry client_seq d = do
    text ← or_fail (bolt.get (codec.format_int client_seq) d.wal) "no wal"
    or_fail (codec.unmarshal_wal text) "json.Unmarshal failed"

  unfoldable pub erase_wal : Int64 → Database → Database
  erase_wal client_seq d = record d { wal = bolt.delete (codec.format_int client_seq) d.wal }

  -- The pairs whose value is an entry, in the order of the cursor.
  unfoldable pub copy_entries : List (String × String) → List (String × String)
  copy_entries [] = []
  copy_entries (e ∷ es) =
      let rest = copy_entries es in
      elim (codec.unmarshal_wal e.1) [ none ↦ rest | some entry ↦ e ∷ rest ]

  unfoldable pub get_wal_copy : Database → List (String × String)
  unfolding copy_entries
  get_wal_copy d = copy_entries (bolt.entries d.wal)

  -- `PrintAllWAL`, as the texts that it prints; how an entry is shown is an argument.
  unfoldable pub wal_texts : (WalEntry → String) → List (String × String) → List String
  wal_texts show [] = []
  wal_texts show (e ∷ es) =
      let rest = wal_texts show es in
      elim (codec.unmarshal_wal e.1) [
        | none ↦ rest
        | some entry ↦ string_append e.0 (string_append ": " (show entry)) ∷ rest
      ]

  unfoldable pub print_all_wal : (WalEntry → String) → Database → List String
  unfolding wal_texts
  print_all_wal show d = wal_texts show (bolt.entries d.wal)

-- ===== src/Db/Wal/Entries.antt =====
-- What is read from the write-ahead log after each change of it.
use pbft_2pc.Prelude.{
  Result-cases, >>=-eq-ok, or_fail-eq-ok, or_fail, String, string_eq, Int64, IsInt64, ok, err,
  value_or, some, List, [], ◌++◌, ◌≡◌, nat_eq, ◌==◌, if◌then◌else◌, inl, inr, arith, eq_iff,
}
use pbft_2pc.Deps.{get-put, Bolt, Codec, WalLog, WalEntry}
use pbft_2pc.Db.{Database}
use pbft_2pc.Db.Wal.{current_entry, append_bucket, append_to_wal_entry, read_wal_entry, erase_wal}

module _ ⦃bolt : Bolt⦄ ⦃codec : Codec⦄ where
  -- The logs of an entry, none if there is no entry.
  abbrev logs_of : Int64 → Database → List WalLog
  logs_of s d = (value_or (read_wal_entry s d) (record { logs = [] })).logs

  get_current :
      (s : Int64) (d : Database) (w : WalEntry)
      → current_entry (bolt.get (codec.format_int s) d.wal) ≡ ok w
      → logs_of s d ≡ w.logs
  unfolding current_entry read_wal_entry
  get_current s d w h = ground arith

  -- A successful append has read the present entry, and written it with the new logs behind.
  append_bucket-eq-ok :
      (s : Int64) (new_logs : List WalLog) (b b' : bolt.Bucket String)
      → append_bucket s new_logs b ≡ ok b'
      → (w : WalEntry) × (text : String) × (current_entry (bolt.get (codec.format_int s) b) ≡ ok w)
        × (codec.unmarshal_wal text ≡ some (record { logs = w.logs ++ new_logs }))
        × ((j : String)
            → bolt.get j b' ≡ (if codec.format_int s == j then some text else bolt.get j b))
  unfolding append_bucket
  append_bucket-eq-ok s new_logs b b' h =
      let (w, e, h') = >>=-eq-ok (current_entry (bolt.get (codec.format_int s) b)) _ h in
      let (text, e', h'') = >>=-eq-ok (or_fail (codec.marshal_wal _) _) _ h' in
      let m = or_fail-eq-ok (codec.marshal_wal _) _ e' in
      let p = or_fail-eq-ok (bolt.put (codec.format_int s) text b) _ h'' in
      (
        w,
        text,
        e,
        codec.unmarshal-marshal_wal _ text m,
        λ j. get-put (codec.format_int s) j text b b' p,
      )

  -- A successful append puts the new logs behind those of the same transaction, and the entries
  -- of the other transactions stay as they were.
  logs_of-append :
      (s j : Int64) (new_logs : List WalLog) (d : Database)
      → IsInt64 s
      → IsInt64 j
      → (append_to_wal_entry s new_logs d).0 ≡ ok tt
      → logs_of j (append_to_wal_entry s new_logs d).1
        ≡ (if s == j then logs_of s d ++ new_logs else logs_of j d)
  unfolding append_to_wal_entry read_wal_entry current_entry
  logs_of-append s j new_logs d hs hj h = elim (Result-cases (append_bucket s new_logs d.wal)) [
    | inl (b', e) ↦
        let (w, text, now, saved, reads) = append_bucket-eq-ok s new_logs d.wal b' e in
        ground (
          arith,
          e,
          now,
          saved,
          reads (codec.format_int j),
          eq_iff (codec.format_int s) (codec.format_int j),
          codec.parse-format s hs,
          codec.parse-format j hj,
        )
    | inr failed ↦ ground (arith, failed)
  ]

  -- Erasing removes the entry of this transaction alone.
  read_wal_entry-erase_wal :
      (s j : Int64) (d : Database)
      → IsInt64 s
      → IsInt64 j
      → read_wal_entry j (erase_wal s d) ≡ (if s == j then err "no wal" else read_wal_entry j d)
  unfolding read_wal_entry erase_wal
  read_wal_entry-erase_wal s j d hs hj = ground (
    arith,
    bolt.get-delete (codec.format_int s) (codec.format_int j) d.wal,
    eq_iff (codec.format_int s) (codec.format_int j),
    codec.parse-format s hs,
    codec.parse-format j hj,
  )

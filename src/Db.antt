-- ===== src/Db.antt =====
-- db/db.go: the four buckets of the database, and its creation. A method that changes a bucket
-- returns the new database; `d.db.Update` rolls back when the function it runs returns an error.
pub mod Balances
pub mod Locks
pub mod Wal
pub mod Logs
use pbft_2pc.Prelude.{String, string_eq, nat_eq, list_eq}
use pbft_2pc.Messages.{Bytes}
use pbft_2pc.Deps.{Bolt}

module _ ⦃bolt : Bolt⦄ where
  pub record Database : Type 0 where
    pub balances : bolt.Bucket String
    pub transactions : bolt.Bucket Bytes
    pub wal : bolt.Bucket String
    pub locks : bolt.Bucket String

  -- `createBuckets` on a new file
  unfoldable pub create_buckets : Database
  create_buckets = record {
    balances = bolt.new_bucket;
    transactions = bolt.new_bucket;
    wal = bolt.new_bucket;
    locks = bolt.new_bucket;
  }

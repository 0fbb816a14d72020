-- ===== src/Deps/Encoding.antt =====
-- The text forms of the standard library: `strconv.FormatInt` and `ParseInt` in base 10, and
-- `json.Marshal` and `Unmarshal` of the two structs that the database keeps.
use pbft_2pc.Prelude.{String, Int64, IsInt64, ◌≡◌, Option, some, List}
use pbft_2pc.Messages.{Transaction}

-- db.WALLog
pub record WalLog : Type 0 where
  pub operation : String
  pub subject : String
  pub transaction : Transaction

-- db.WALEntry
pub record WalEntry : Type 0 where
  pub logs : List WalLog

-- db.DBUnit; the transaction is a pointer, which may be nil.
pub record SavedUnit : Type 0 where
  pub seq : Int64
  pub transaction : Option Transaction
  pub status : String

pub record Codec : Type 0 where
  pub format_int : Int64 → String
  -- The value is 0 where the text is no number.
  pub parse_int : String → Int64
  pub marshal_wal : WalEntry → Option String
  pub unmarshal_wal : String → Option WalEntry
  pub marshal_unit : SavedUnit → Option String
  pub unmarshal_unit : String → Option SavedUnit
  pub parse_int-IsInt64 : (t : String) → IsInt64 (parse_int t)
  pub parse-format : (n : Int64) → IsInt64 n → parse_int (format_int n) ≡ n
  pub unmarshal-marshal_wal :
      (w : WalEntry) (t : String) → marshal_wal w ≡ some t → unmarshal_wal t ≡ some w
  pub unmarshal-marshal_unit :
      (u : SavedUnit) (t : String) → marshal_unit u ≡ some t → unmarshal_unit t ≡ some u

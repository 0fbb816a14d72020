-- ===== src/Instances/Decimal.antt =====
-- Numbers in decimal digits, and JSON of the values that the tests meet.
use Prim.Native.Char.{Char, code}
use pbft_2pc.Prelude.{
  ℕ, zero, suc, ◌+◌, ◌-◌, ◌*◌, ◌/◌, ◌%◌, ◌^◌, ◌<◌, String, string_eq, nat_eq, Int64, IsInt64, ltb,
  ◌≡◌, refl, Bool, true, ◌&&◌, Option, none, some, List, [], ◌∷◌, if◌then◌else◌, Eq, ◌==◌, list_eq,
  arith, eq_iff, ◌↔◌, inl, inr, Bool-cases, ap, ltb→lt, ◌∙◌, list_beq_iff,
}
use pbft_2pc.Messages.{Transaction}
use pbft_2pc.Deps.{Codec, WalLog, WalEntry, SavedUnit}

abbrev digit : ℕ → Char
digit zero = "0"
digit (suc zero) = "1"
digit (suc (suc zero)) = "2"
digit (suc (suc (suc zero))) = "3"
digit (suc (suc (suc (suc zero)))) = "4"
digit (suc (suc (suc (suc (suc zero))))) = "5"
digit (suc (suc (suc (suc (suc (suc zero)))))) = "6"
digit (suc (suc (suc (suc (suc (suc (suc zero))))))) = "7"
digit (suc (suc (suc (suc (suc (suc (suc (suc zero)))))))) = "8"
digit (suc (suc (suc (suc (suc (suc (suc (suc (suc n))))))))) = "9"

digit_value : (d : ℕ) → d < 10 → code (digit d) - 48 ≡ d
digit_value zero h = refl
digit_value (suc zero) h = refl
digit_value (suc (suc zero)) h = refl
digit_value (suc (suc (suc zero))) h = refl
digit_value (suc (suc (suc (suc zero)))) h = refl
digit_value (suc (suc (suc (suc (suc zero))))) h = refl
digit_value (suc (suc (suc (suc (suc (suc zero)))))) h = refl
digit_value (suc (suc (suc (suc (suc (suc (suc zero))))))) h = refl
digit_value (suc (suc (suc (suc (suc (suc (suc (suc zero)))))))) h = refl
digit_value (suc (suc (suc (suc (suc (suc (suc (suc (suc zero))))))))) h = refl
digit_value (suc (suc (suc (suc (suc (suc (suc (suc (suc (suc n)))))))))) h = absurd (omega arith)

abbrev print : ℕ → ℕ → String → String
print zero n rest = rest
print (suc k) n rest =
    let more = print k (n / 10) (String.◌∷◌ (digit (n % 10)) rest) in
    if ltb n 10 then String.◌∷◌ (digit n) rest else more

abbrev value_from : ℕ → String → ℕ
value_from acc String.[] = acc
value_from acc (String.◌∷◌ c s) = value_from (acc * 10 + (code c - 48)) s

value_from-digit :
    (acc d n : ℕ) (rest : String)
    → d < 10
    → acc * 10 + d ≡ n
    → value_from acc (String.◌∷◌ (digit d) rest) ≡ value_from n rest
value_from-digit acc d n rest h e = ap (λ v. value_from v rest) (omega (arith, digit_value d h))

value_from-print :
    (k n : ℕ) (rest : String) → n < k → value_from 0 (print k n rest) ≡ value_from n rest
value_from-print zero n rest h = elim h [ ]
value_from-print (suc k) n rest h = elim (Bool-cases (ltb n 10)) [
  | inl small ↦ rw small (value_from-digit 0 n n rest (ltb→lt n 10 small) (omega arith))
  | inr large ↦ rw large (
      value_from-print k (n / 10) (String.◌∷◌ (digit (n % 10)) rest) (ground arith)
      ∙ value_from-digit (n / 10) (n % 10) n rest (omega arith) (omega arith))
]

abbrev pub decimal : Int64 → String
decimal n = print (n + 1) n ""

abbrev pub undecimal : String → Int64
undecimal t = value_from 0 t % 2 ^ 64

pub undecimal-IsInt64 : (t : String) → IsInt64 (undecimal t)
undecimal-IsInt64 t = omega arith

pub undecimal-decimal : (n : Int64) → IsInt64 n → undecimal (decimal n) ≡ n
undecimal-decimal n h = rw (value_from-print (n + 1) n "" (omega arith)) (omega arith)

-- Equality of the structs.
abbrev transaction_beq : Transaction → Transaction → Bool
transaction_beq a b =
    a.from == b.from
    && a.to == b.to
    && a.amount == b.amount
    && a.cluster_from == b.cluster_from
    && a.cluster_to == b.cluster_to
    && a.client_seq == b.client_seq

transaction_beq_iff : (a b : Transaction) → (transaction_beq a b ≡ true) ↔ (a ≡ b)
transaction_beq_iff a b = ground (
  arith,
  eq_iff a.from b.from,
  eq_iff a.to b.to,
  eq_iff a.cluster_from b.cluster_from,
  eq_iff a.cluster_to b.cluster_to,
)

instance abbrev transaction_eq : Eq Transaction
transaction_eq = record { beq = transaction_beq; beq_iff = transaction_beq_iff }

abbrev wal_log_beq : WalLog → WalLog → Bool
wal_log_beq a b =
    a.operation == b.operation && a.subject == b.subject && a.transaction == b.transaction

wal_log_beq_iff : (a b : WalLog) → (wal_log_beq a b ≡ true) ↔ (a ≡ b)
wal_log_beq_iff a b = ground (
  arith,
  eq_iff a.operation b.operation,
  eq_iff a.subject b.subject,
  transaction_beq_iff a.transaction b.transaction,
)

instance abbrev wal_log_eq : Eq WalLog
wal_log_eq = record { beq = wal_log_beq; beq_iff = wal_log_beq_iff }

-- The transfer that the tests use.
abbrev pub sample : Transaction
sample = record {
  from = "7";
  to = "1500";
  amount = 4;
  cluster_from = "C1";
  cluster_to = "C2";
  client_seq = 5;
}

abbrev pub sample_log : WalLog
sample_log = record { operation = "transaction"; subject = ""; transaction = sample }

-- The entries with up to two logs of the sample have a text; units of the log of transactions have none.
abbrev parse_wal : String → Option WalEntry
parse_wal t =
    if t == "[]"
    then some (record { logs = [] })
    else if t == "[s]"
    then some (record { logs = sample_log ∷ [] })
    else if t == "[s,s]"
    then some (record { logs = sample_log ∷ sample_log ∷ [] })
    else none

abbrev print_wal : WalEntry → Option String
print_wal w =
    if w.logs == []
    then some "[]"
    else if w.logs == sample_log ∷ []
    then some "[s]"
    else if w.logs == sample_log ∷ sample_log ∷ []
    then some "[s,s]"
    else none

same_text :
    {A : Type 0} (f : String → Option A) (t t' : String) (a a' : A)
    → some t ≡ some t'
    → f t ≡ some a
    → a ≡ a'
    → f t' ≡ some a'
same_text f t t' a a' h e p = cc

same_logs : (w : WalEntry) (ls : List WalLog) → w.logs ≡ ls → record { logs = ls } ≡ w
same_logs w ls e = cc

pub parse_wal-print_wal : (w : WalEntry) (t : String) → print_wal w ≡ some t → parse_wal t ≡ some w
parse_wal-print_wal w t h = elim (Bool-cases (w.logs == [])) [
  | inl e ↦
      same_text parse_wal "[]" t _ w (rw e at h) refl (same_logs w _ ((list_beq_iff w.logs []).0 e))
  | inr e ↦ elim (Bool-cases (w.logs == sample_log ∷ [])) [
    | inl e' ↦
        same_text parse_wal "[s]" t _ w (rw (e, e') at h) refl
          (same_logs w _ ((list_beq_iff w.logs (sample_log ∷ [])).0 e'))
    | inr e' ↦ elim (Bool-cases (w.logs == sample_log ∷ sample_log ∷ [])) [
      | inl e'' ↦
          same_text parse_wal "[s,s]" t _ w (rw (e, e', e'') at h) refl
            (same_logs w _ ((list_beq_iff w.logs (sample_log ∷ sample_log ∷ [])).0 e''))
      | inr e'' ↦ (let h' : none ≡ some t = rw (e, e', e'') at h in cc)
    ]
  ]
]

abbrev parse_unit : String → Option SavedUnit
parse_unit t = none

abbrev print_unit : SavedUnit → Option String
print_unit u = none

pub no_unit : (u : SavedUnit) (t : String) → print_unit u ≡ some t → parse_unit t ≡ some u
no_unit u t h = cc

instance abbrev pub decimal_codec : Codec
decimal_codec = record {
  format_int = decimal;
  parse_int = undecimal;
  marshal_wal = print_wal;
  unmarshal_wal = parse_wal;
  marshal_unit = print_unit;
  unmarshal_unit = parse_unit;
  parse_int-IsInt64 = undecimal-IsInt64;
  parse-format = undecimal-decimal;
  unmarshal-marshal_wal = parse_wal-print_wal;
  unmarshal-marshal_unit = no_unit;
}

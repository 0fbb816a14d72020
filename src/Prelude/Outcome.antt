-- ===== src/Prelude/Outcome.antt =====
-- A Go result `(A, error)`, of which the program uses one part only: the value, or the error with
-- the constant part of its text. `panic` is a nil dereference, which ends the process.
use mathlib.Core.Bool.{Bool, true, false}
use mathlib.Core.Option.{Option, none, some}
use mathlib.Core.Path.{◌≡◌, refl}
use mathlib.Core.Logic.{◌⊎◌, inl, inr}
use Prim.Native.String.{String}
use pbft_2pc.Prelude.Tests.{if◌then◌else◌}

pub data Result {ℓ} (A : Type ℓ) : Type ℓ where
  ok : A → Result A
  err : String → Result A
  panic : Result A

infixl 5 ◌>>=◌
abbrev pub ◌>>=◌ {ℓ κ} : {V : Type ℓ} {W : Type κ} → Result V → (V → Result W) → Result W
panic >>= next = panic
err text >>= next = err text
ok v >>= next = next v

infixl 5 ◌>>◌
abbrev pub ◌>>◌ {ℓ} : {W : Type ℓ} → Result (Unit {0}) → Result W → Result W
first >> second = first >>= λ done. second

-- `if bad { return errors.New(text) }`
abbrev pub fail_if : Bool → String → Result (Unit {0})
fail_if bad text = if bad then err text else ok tt

-- `v, ok := …; if !ok { return errors.New(text) }`
abbrev pub or_fail {ℓ} : {A : Type ℓ} → Option A → String → Result A
or_fail none text = err text
or_fail (some a) text = ok a

-- `v := …` where a nil is dereferenced next.
abbrev pub or_panic {ℓ} : {A : Type ℓ} → Option A → Result A
or_panic none = panic
or_panic (some a) = ok a

-- `err == nil`
abbrev pub is_ok {ℓ} : {A : Type ℓ} → Result A → Bool
is_ok (ok a) = true
is_ok (err e) = false
is_ok panic = false

-- `v, _ := …`: the value, or the zero value `z`.
abbrev pub value_or {ℓ} : {A : Type ℓ} → Result A → A → A
value_or (ok a) z = a
value_or (err e) z = z
value_or panic z = z

-- A sequence that ends well: its first step did, and so did the rest on that value.
pub >>=-eq-ok {ℓ κ} :
    {V : Type ℓ} {W : Type κ} (first : Result V) (next : V → Result W) {w : W}
    → (first >>= next) ≡ ok w
    → (v : V) × (first ≡ ok v) × (next v ≡ ok w)
>>=-eq-ok panic next h = cc
>>=-eq-ok (err text) next h = cc
>>=-eq-ok (ok v) next h = (v, refl, h)

pub or_fail-eq-ok {ℓ} :
    {A : Type ℓ} (o : Option A) (text : String) {a : A} → or_fail o text ≡ ok a → o ≡ some a
or_fail-eq-ok none text h = cc
or_fail-eq-ok (some a) text h = cc

pub Result-cases {ℓ} : {A : Type ℓ} (r : Result A) → ((a : A) × (r ≡ ok a)) ⊎ (is_ok r ≡ false)
Result-cases (ok a) = inl (a, refl)
Result-cases (err e) = inr refl
Result-cases panic = inr refl

pub fail_if-eq-ok :
    (bad : Bool) (text : String) {u : Unit {0}} → fail_if bad text ≡ ok u → bad ≡ false
fail_if-eq-ok true text h = cc
fail_if-eq-ok false text h = refl

pub or_panic-eq-ok {ℓ} : {A : Type ℓ} (o : Option A) {a : A} → or_panic o ≡ ok a → o ≡ some a
or_panic-eq-ok none h = cc
or_panic-eq-ok (some a) h = cc

pub ok-injective {ℓ} : {A : Type ℓ} {a b : A} → ok a ≡ ok b → a ≡ b
ok-injective h = cc

-- The three cases of a result that was computed.
pub Result-split {ℓ} :
    {A : Type ℓ} (r : Result A)
    → ((a : A) × (r ≡ ok a)) ⊎ (((text : String) × (r ≡ err text)) ⊎ (r ≡ panic))
Result-split (ok a) = inl (a, refl)
Result-split (err text) = inr (inl (text, refl))
Result-split panic = inr (inr refl)

-- ===== src/Instances/ToyKeys.antt =====
-- A key as its two numbers, behind a mark for the type of the block.
use pbft_2pc.Prelude.{
  String, string_eq, nat_eq, Option, none, some, [], ◌∷◌, ◌==◌, if◌then◌else◌, ◌≡◌, refl,
}
use mathlib.Core.Path.{subst}
use mathlib.Core.Option.{some-injective}
use pbft_2pc.Messages.{Bytes}
use pbft_2pc.Deps.{PublicKey, PrivateKey, KeyText}

abbrev toy_marshal : PublicKey → Option Bytes
toy_marshal k = some (k.modulus ∷ k.exponent ∷ [])

abbrev toy_parse : Bytes → Option (Option PublicKey)
toy_parse [] = none
toy_parse (m ∷ []) = none
toy_parse (m ∷ e ∷ []) = some (some (record { modulus = m; exponent = e }))
toy_parse (m ∷ e ∷ b ∷ bs) = some none

abbrev toy_encode : String → Bytes → Bytes
toy_encode kind b =
    (if kind == "RSA PUBLIC KEY" then 1 else if kind == "RSA PRIVATE KEY" then 2 else 0) ∷ b

abbrev toy_decode : Bytes → Option (String × Bytes)
toy_decode [] = none
toy_decode (m ∷ b) =
    some ((if m == 1 then "RSA PUBLIC KEY" else if m == 2 then "RSA PRIVATE KEY" else ""), b)

abbrev toy_private : PrivateKey → Bytes
toy_private k = k.private_exponent ∷ k.public_key.modulus ∷ k.public_key.exponent ∷ []

abbrev toy_parse_private : Bytes → Option PrivateKey
toy_parse_private (d ∷ m ∷ e ∷ []) =
    some (record { public_key = record { modulus = m; exponent = e }; private_exponent = d })
toy_parse_private b = none

pub toy_parse-toy_marshal :
    (k : PublicKey) (b : Bytes) → toy_marshal k ≡ some b → toy_parse b ≡ some (some k)
toy_parse-toy_marshal k b e = subst (λ t. toy_parse t ≡ some (some k)) (some-injective _ _ e) refl

instance abbrev pub toy_keys : KeyText
toy_keys = record {
  marshal_pkix = toy_marshal;
  parse_pkix = toy_parse;
  pem_encode = toy_encode;
  pem_decode = toy_decode;
  parse-marshal = toy_parse-toy_marshal;
  decode-encode = λ b. refl;
  marshal_pkcs1 = toy_private;
  parse_pkcs1 = toy_parse_private;
  parse-marshal_pkcs1 = λ k. refl;
  decode-encode_private = λ b. refl;
}

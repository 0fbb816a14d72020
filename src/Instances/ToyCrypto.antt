-- ===== src/Instances/ToyCrypto.antt =====
-- A signature is the modulus of the key and the text; the hash of a text is the text itself, and a
-- digest shows its first number.
use pbft_2pc.Prelude.{
  String, string_eq, nat_eq, list_eq, list_beq_iff, ◌≡◌, Bool, true, Option, none, some, [], ◌∷◌,
  ◌==◌,
}
use pbft_2pc.Messages.{Bytes, Message, SignedClientRequest}
use pbft_2pc.Deps.{Crypto, PublicKey, PrivateKey}
use pbft_2pc.Instances.Decimal.{decimal}

-- A few numbers of each message.
abbrev toy_marshal : Message → Option Bytes
toy_marshal (Message.client_request r) = some (1 ∷ r.transaction.client_seq ∷ r.timestamp ∷ [])
toy_marshal (Message.pre_prepare p) = some (2 ∷ p.view ∷ p.sequence ∷ [])
toy_marshal (Message.prepare p) = some (3 ∷ p.view ∷ p.sequence ∷ [])
toy_marshal (Message.commit c) = some (4 ∷ c.view ∷ c.sequence ∷ [])
toy_marshal (Message.checkpoint c) = some (5 ∷ c.sequence ∷ [])
toy_marshal (Message.view_change r) = some (6 ∷ r.view ∷ [])
toy_marshal (Message.new_view r) = some (7 ∷ r.view ∷ [])
toy_marshal (Message.reply r) = some (8 ∷ r.view ∷ r.timestamp ∷ [])

abbrev toy_sign : PrivateKey → Bytes → Option Bytes
toy_sign key hash = some (key.public_key.modulus ∷ hash)

abbrev toy_verify : PublicKey → Bytes → Bytes → Bool
toy_verify key hash signature = signature == key.modulus ∷ hash

pub toy_verify-toy_sign :
    (k : PrivateKey) (h s : Bytes) → toy_sign k h ≡ some s → toy_verify k.public_key h s ≡ true
toy_verify-toy_sign k h s e = (list_beq_iff s (k.public_key.modulus ∷ h)).1 (cc)

abbrev toy_json : Option SignedClientRequest → Option Bytes
toy_json none = some []
toy_json (some r) = some (r.client_request.transaction.client_seq ∷ [])

abbrev toy_md5 : Bytes → String
toy_md5 [] = "empty"
toy_md5 (b ∷ bs) = decimal b

instance abbrev pub toy_crypto : Crypto
toy_crypto = record {
  marshal = toy_marshal;
  sha256 = λ t. t;
  rsa_sign = toy_sign;
  rsa_verify = toy_verify;
  json_request = toy_json;
  json_balances = λ bs. some [];
  md5_hex = toy_md5;
  verify-sign = toy_verify-toy_sign;
}

-- ===== src/Cryptox/KeyFiles.antt =====
-- The key files of cryptox/crypto.go: SaveRSAPublicKeyToFile and ReadRSAPublicKeyFromFile, and the
-- texts of private keys.
use pbft_2pc.Prelude.{
  String, string_eq, none, some, Table, assign, not, ◌==◌, Result, ok, err, or_fail, fail_if,
  is_empty, ◌≡◌, refl, >>=-eq-ok, ok-injective, ◌>>=◌, ◌>>◌,
}
use pbft_2pc.Messages.{Bytes}
use pbft_2pc.Deps.{PublicKey, PrivateKey, KeyText}

-- The files, by their paths; a write succeeds.
abbrev pub Files : Type 0
Files = Table String Bytes

module _ ⦃keys : KeyText⦄ where
  unfoldable pub save_rsa_public_key_to_file :
      PublicKey → String → Files → Result (Unit {0}) × Files
  save_rsa_public_key_to_file key path files = elim (keys.marshal_pkix key) [
    | none ↦ (err "failed to marshal public key", files)
    | some bytes ↦ (ok tt, assign path (some (keys.pem_encode "RSA PUBLIC KEY" bytes)) files)
  ]

  unfoldable pub read_rsa_public_key_from_file : String → Files → Result PublicKey
  read_rsa_public_key_from_file path files = do
    text ← or_fail (files path) "no such file"
    block ← or_fail (keys.pem_decode text) "failed to decode PEM block containing public key"
    fail_if (not (block.0 == "RSA PUBLIC KEY")) "failed to decode PEM block containing public key"
    parsed ← or_fail (keys.parse_pkix block.1) "failed to parse public key"
    or_fail parsed "not an RSA public key"

  -- `SerializeRSAKey`; PEM's encoder returns nil where it cannot encode a block.
  unfoldable pub serialize_rsa_key : PrivateKey → Result Bytes
  serialize_rsa_key key = do
    let text = keys.pem_encode "RSA PRIVATE KEY" (keys.marshal_pkcs1 key)
    fail_if (is_empty text) "failed to encode private key to PEM"
    ok text

  unfoldable pub deserialize_rsa_key : Bytes → Result PrivateKey
  deserialize_rsa_key text = do
    block ← or_fail (keys.pem_decode text) "failed to decode PEM block containing private key"
    fail_if (not (block.0 == "RSA PRIVATE KEY")) "failed to decode PEM block containing private key"
    or_fail (keys.parse_pkcs1 block.1) "failed to parse private key"

  -- The text of a private key, where there is one, is read as this key.
  deserialize_rsa_key-serialize_rsa_key :
      (key : PrivateKey) (text : Bytes)
      → serialize_rsa_key key ≡ ok text
      → deserialize_rsa_key text ≡ ok key
  unfolding serialize_rsa_key deserialize_rsa_key
  deserialize_rsa_key-serialize_rsa_key key text h =
      let (_, _, h') =
        >>=-eq-ok
          (fail_if (is_empty (keys.pem_encode "RSA PRIVATE KEY" (keys.marshal_pkcs1 key)))
            "failed to encode private key to PEM")
          _ h in
      let same = ok-injective h' in
      rw (← same) (
        rw (keys.decode-encode_private (keys.marshal_pkcs1 key))
          (rw (keys.parse-marshal_pkcs1 key) refl))

-- ===== src/Cryptox.antt =====
-- cryptox/crypto.go: signing, verifying and digesting a message; KeyFiles has the files of keys.
pub mod KeyFiles
use pbft_2pc.Prelude.{
  String, Result, ok, or_fail, fail_if, ◌>>=◌, Option, ◌≡◌, arith, not, Option-cases, inl, inr,
  List, Int64,
}
use pbft_2pc.Messages.{Bytes, Message, SignedClientRequest}
use pbft_2pc.Deps.{Crypto, PublicKey, PrivateKey}

module _ ⦃c : Crypto⦄ where
  -- `SignMessage`
  unfoldable pub sign_message : PrivateKey → Message → Result Bytes
  sign_message key message = do
    bytes ← or_fail (c.marshal message) "failed to marshal message"
    or_fail (c.rsa_sign key (c.sha256 bytes)) "failed to sign message"

  -- `VerifySignature`
  unfoldable pub verify_signature : PublicKey → Message → Bytes → Result (Unit {0})
  verify_signature key message signature = do
    bytes ← or_fail (c.marshal message) "failed to marshal message"
    fail_if (not (c.rsa_verify key (c.sha256 bytes) signature)) "verification failed"

  -- `MD5Hash` of a signed client request
  unfoldable pub md5_hash : Option SignedClientRequest → Result String
  md5_hash request = do
    json ← or_fail (c.json_request request) "failed to serialize object"
    ok (c.md5_hex json)

  -- `MD5Hash` of the balances of a checkpoint
  unfoldable pub md5_hash_balances : List (String × Int64) → Result String
  md5_hash_balances balances = do
    json ← or_fail (c.json_balances balances) "failed to serialize object"
    ok (c.md5_hex json)

  -- A signature that SignMessage made with a private key passes VerifySignature under its public key.
  pub verify_signature-sign_message :
      (key : PrivateKey) (message : Message) (signature : Bytes)
      → sign_message key message ≡ ok signature
      → verify_signature key.public_key message signature ≡ ok tt
  unfolding sign_message verify_signature
  verify_signature-sign_message key message signature h = elim (Option-cases (c.marshal message)) [
    | inl refused ↦ ground arith
    | inr (bytes, e) ↦ ground (arith, c.verify-sign key (c.sha256 bytes) signature)
  ]

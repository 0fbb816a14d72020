-- ===== src/Deps/Signing.antt =====
-- The libraries that cryptox/crypto.go calls: protobuf's and json's encodings, the hashes and RSA.
use pbft_2pc.Prelude.{ℕ, String, Int64, Bool, true, ◌≡◌, Option, some, List}
use pbft_2pc.Messages.{Bytes, Message, SignedClientRequest}

-- `rsa.PublicKey` and `rsa.PrivateKey`
pub record PublicKey : Type 0 where
  pub modulus : ℕ
  pub exponent : ℕ

pub record PrivateKey : Type 0 where
  pub public_key : PublicKey
  pub private_exponent : ℕ

pub record Crypto : Type 0 where
  -- `proto.Marshal`
  pub marshal : Message → Option Bytes
  pub sha256 : Bytes → Bytes
  -- `rsa.SignPKCS1v15` and `rsa.VerifyPKCS1v15`
  pub rsa_sign : PrivateKey → Bytes → Option Bytes
  pub rsa_verify : PublicKey → Bytes → Bytes → Bool
  -- `json.Marshal` of the two values that are digested
  pub json_request : Option SignedClientRequest → Option Bytes
  pub json_balances : List (String × Int64) → Option Bytes
  -- the MD5 sum in hexadecimal
  pub md5_hex : Bytes → String
  -- A signature that was made with a private key is accepted under its public key.
  pub verify-sign :
      (k : PrivateKey) (h s : Bytes) → rsa_sign k h ≡ some s → rsa_verify k.public_key h s ≡ true

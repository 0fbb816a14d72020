-- ===== src/Deps/Keys.antt =====
-- The libraries by which cryptox/crypto.go writes keys as text: x509's forms and PEM.
use pbft_2pc.Prelude.{String, Option, some, ◌≡◌}
use pbft_2pc.Messages.{Bytes}
use pbft_2pc.Deps.Signing.{PublicKey, PrivateKey}

pub record KeyText : Type 0 where
  -- `x509.MarshalPKIXPublicKey`
  pub marshal_pkix : PublicKey → Option Bytes
  -- `x509.ParsePKIXPublicKey`: `some none` is a key that is not an RSA key
  pub parse_pkix : Bytes → Option (Option PublicKey)
  -- `pem.EncodeToMemory` of a block with its type and its bytes
  pub pem_encode : String → Bytes → Bytes
  -- `pem.Decode`
  pub pem_decode : Bytes → Option (String × Bytes)
  -- `x509.MarshalPKCS1PrivateKey`
  pub marshal_pkcs1 : PrivateKey → Bytes
  -- `x509.ParsePKCS1PrivateKey`
  pub parse_pkcs1 : Bytes → Option PrivateKey
  pub parse-marshal_pkcs1 : (k : PrivateKey) → parse_pkcs1 (marshal_pkcs1 k) ≡ some k
  pub decode-encode_private :
      (b : Bytes) → pem_decode (pem_encode "RSA PRIVATE KEY" b) ≡ some ("RSA PRIVATE KEY", b)
  pub parse-marshal :
      (k : PublicKey) (b : Bytes) → marshal_pkix k ≡ some b → parse_pkix b ≡ some (some k)
  pub decode-encode :
      (b : Bytes) → pem_decode (pem_encode "RSA PUBLIC KEY" b) ≡ some ("RSA PUBLIC KEY", b)

-- ===== src/Gateway/Startup/ClientKey.antt =====
-- How the nodes come to know the key of the gateway, under the name "client".
use Prim.Native.String.{◌++◌ as string_append}
use pbft_2pc.Prelude.{
  ap, ◌∙◌, String, string_eq, Int64, true, false, some, List, ◌∷◌, ◌++◌, All, Table, ◌==◌, ok, ◌≡◌,
  refl,
}
use pbft_2pc.Messages.{Bytes, Transaction, Message}
use pbft_2pc.Deps.{Bolt, Crypto, PublicKey, PrivateKey, KeyText}
use pbft_2pc.Cryptox.{sign_message, verify_signature-sign_message}
use pbft_2pc.Cryptox.KeyFiles.{Files, read_rsa_public_key_from_file}
use pbft_2pc.Node.{Node}
use pbft_2pc.Node.Log.{get_public_key}
use pbft_2pc.Node.Certs.{is_signed_by}
use pbft_2pc.Node.Keys.{
  key_path, key_owner, read_public_keys, read_public_key_into_map, node_reads_keys,
}
use pbft_2pc.Node.Keys.Exchange.{other_files, own_file, read-save, read_public_keys-append}
use pbft_2pc.Gateway.Routing.{get_signed_client_req}
use pbft_2pc.Gateway.Startup.{gateway_init_keys}

-- The files of the gateway, which runs in a directory below that of the nodes, as the nodes see them.
abbrev pub seen_by_nodes : Files → Files
seen_by_nodes files path = files (string_append "../" path)

module _ ⦃bolt : Bolt⦄ ⦃crypto : Crypto⦄ ⦃keys : KeyText⦄ where
  client_file :
      (key : PrivateKey) (bytes : Bytes) (files : Files)
      → keys.marshal_pkix key.public_key ≡ some bytes
      → read_rsa_public_key_from_file
          (key_path "client")
          (seen_by_nodes (gateway_init_keys key files).1)
        ≡ ok key.public_key
  unfolding gateway_init_keys key_path read_rsa_public_key_from_file
  client_file key bytes files marshalled =
      read-save key.public_key "../keys/client_pub.pem" bytes files marshalled

  -- Let the gateway run in a directory directly below the one in which the nodes run, so that its path
  -- ../keys is their keys. The gateway makes its keys, of which the public one has a PKIX form, and a node walks over the files:
  -- the gateway's, and others in any order, of which those that come later are not for the name
  -- "client". Then the node has the gateway's public key under the name "client", and accepts the
  -- signature of each client request that the gateway can sign.
  pub client_key_exchanged :
      (n : Node) (key : PrivateKey) (bytes : Bytes) (files : Files) (before after : List String)
      (t : Transaction) (timestamp : Int64) (signature : Bytes)
      → keys.marshal_pkix key.public_key ≡ some bytes
      → All (λ p. (key_owner p == "client") ≡ false) after
      → sign_message key
          (Message.client_request (record { transaction = t; timestamp = timestamp }))
        ≡ ok signature
      → let (key', files') = gateway_init_keys key files in
        let n' = node_reads_keys (before ++ key_path "client" ∷ after) (seen_by_nodes files') n in
        let r = get_signed_client_req key' t timestamp in
        (n'.public_key_map "client" ≡ some key.public_key)
        × (is_signed_by "client" (Message.client_request r.client_request) r.signature n' ≡ true)
  unfolding gateway_init_keys node_reads_keys get_signed_client_req is_signed_by get_public_key
  client_key_exchanged n key bytes files before after t timestamp signature marshalled others
        signed =
      let path = key_path "client" in
      let files' = (gateway_init_keys key files).1 in
      let seen = seen_by_nodes files' in
      let readable : read_rsa_public_key_from_file path seen ≡ ok key.public_key =
        client_file key bytes files marshalled in
      let m = read_public_keys before seen n.public_key_map in
      let known =
        ap (λ (m' : Table String PublicKey). m' "client")
          (read_public_keys-append before (path ∷ after) seen n.public_key_map)
        ∙ other_files after "client" seen (read_public_key_into_map path seen m) others
        ∙ own_file "client" key.public_key seen m refl refl readable in
      (known, rw (known, signed) (rw (verify_signature-sign_message key _ signature signed) refl))

-- ===== src/Node/Keys/Exchange.antt =====
-- Nodes exchange their keys through files, and then accept each other's signatures.
use text.Mathlib.TextLemmas.{cons-append, nil-append, append_assoc}
use Prim.Native.Char.{Char, code}
use Prim.Native.String.{◌++◌ as string_append}
use pbft_2pc.Prelude.{
  ap, ◌∙◌, String, string_eq, nat_eq, Bool, true, false, not, ◌&&◌, some, List, [], ◌∷◌, Table,
  ◌==◌, Result, ok, err, panic, ◌≡◌, refl, arith, eq_refl, All, ◌++◌,
}
use pbft_2pc.Strings.{split}
use pbft_2pc.Messages.{Bytes, Message}
use pbft_2pc.Deps.{Bolt, Crypto, PublicKey, PrivateKey, KeyText}
use pbft_2pc.Cryptox.{sign_message, verify_signature-sign_message}
use pbft_2pc.Cryptox.KeyFiles.{Files, save_rsa_public_key_to_file, read_rsa_public_key_from_file}
use pbft_2pc.Node.{Node}
use pbft_2pc.Node.Log.{get_public_key}
use pbft_2pc.Node.Certs.{is_signed_by}
use pbft_2pc.Node.Keys.{
  key_path, key_owner, read_key_into_map, read_public_key_into_map, read_public_keys,
  save_public_key, init_keys, node_reads_keys,
}

-- Does a text have no character `c`?
abbrev pub lacks : Char → String → Bool
lacks c String.[] = true
lacks c (String.◌∷◌ d s) = not (code d == code c) && lacks c s

split-lacks : (c : Char) (s : String) → lacks c s ≡ true → split c s ≡ s ∷ []
split-lacks c String.[] h = refl
split-lacks c (String.◌∷◌ d s) h =
    let later = split-lacks c s (ground arith) in
    let other : (code d == code c) ≡ false = ground arith in rw (later, other) refl

split-append :
    (c : Char) (s t : String)
    → lacks c s ≡ true
    → split c (string_append s (String.◌∷◌ c t)) ≡ s ∷ split c t
split-append c String.[] t h =
    let here : (code c == code c) ≡ true = ground arith in
    rw (nil-append (String.◌∷◌ c t), here) refl
split-append c (String.◌∷◌ d s) t h =
    let later = split-append c s t (ground arith) in
    let other : (code d == code c) ≡ false = ground arith in
    rw (cons-append d s (String.◌∷◌ c t), later, other) refl

lacks-append :
    (c : Char) (s t : String)
    → lacks c s ≡ true
    → lacks c t ≡ true
    → lacks c (string_append s t) ≡ true
lacks-append c String.[] t h h' = rw (nil-append t) h'
lacks-append c (String.◌∷◌ d s) t h h' =
    let later = lacks-append c s t (ground arith) h' in
    rw (cons-append d s t) (ground (arith, later))

-- The path of a key in its two parts.
key_path-eq :
    (id : String)
    → key_path id ≡ string_append "keys" (String.◌∷◌ "/" (string_append id "_pub.pem"))
unfolding key_path
key_path-eq id =
    let name = string_append id "_pub.pem" in
    append_assoc "keys" "/" name
    ∙ ap (string_append "keys")
        (cons-append "/" "" name ∙ ap (λ t. String.◌∷◌ "/" t) (nil-append name))

-- The file of a node names this node, if the node's name has neither a slash nor an underscore.
key_owner-key_path :
    (id : String) → lacks "/" id ≡ true → lacks "_" id ≡ true → key_owner (key_path id) ≡ id
unfolding key_owner
key_owner-key_path id no_slash no_underscore =
    let name = string_append id "_pub.pem" in
    let parts =
      ap (split "/") (key_path-eq id)
      ∙ split-append "/" "keys" name refl
      ∙ ap (λ ps. "keys" ∷ ps)
          (split-lacks "/" name (lacks-append "/" id "_pub.pem" no_slash refl)) in
    rw (parts, key_owner) (rw (split-append "_" id "pub.pem" no_underscore, key_owner) refl)

module _ ⦃keys : KeyText⦄ where
  save-eq :
      (key : PublicKey) (path : String) (bytes : Bytes) (files : Files)
      → keys.marshal_pkix key ≡ some bytes
      → (save_rsa_public_key_to_file key path files).1 path
        ≡ some (keys.pem_encode "RSA PUBLIC KEY" bytes)
  unfolding save_rsa_public_key_to_file
  save-eq key path bytes files marshalled =
      rw (marshalled, save_rsa_public_key_to_file) (rw (eq_refl path) refl)

  -- A file that was written with a key is read as this key.
  pub read-save :
      (key : PublicKey) (path : String) (bytes : Bytes) (files : Files)
      → keys.marshal_pkix key ≡ some bytes
      → read_rsa_public_key_from_file path (save_rsa_public_key_to_file key path files).1 ≡ ok key
  unfolding read_rsa_public_key_from_file
  read-save key path bytes files marshalled =
      rw (save-eq key path bytes files marshalled, read_rsa_public_key_from_file)
        (rw (keys.decode-encode bytes) (rw (keys.parse-marshal key bytes marshalled) refl))

  pub read_public_keys-append :
      (before after : List String) (files : Files) (m : Table String PublicKey)
      → read_public_keys (before ++ after) files m
        ≡ read_public_keys after files (read_public_keys before files m)
  unfolding read_public_keys
  read_public_keys-append [] after files m = refl
  read_public_keys-append (p ∷ before) after files m =
      read_public_keys-append before after files (read_public_key_into_map p files m)

  -- The files of others do not change the key of a node.
  other_file :
      (path : String) (id : String) (files : Files) (m : Table String PublicKey)
      → (key_owner path == id) ≡ false
      → read_public_key_into_map path files m id ≡ m id
  unfolding read_public_key_into_map read_key_into_map
  other_file path id files m other = go (read_rsa_public_key_from_file path files)
    where
      go : (r : Result PublicKey) → read_key_into_map r path m id ≡ m id
      go (ok key) = rw other refl
      go (err text) = refl
      go panic = refl

  pub other_files :
      (paths : List String) (id : String) (files : Files) (m : Table String PublicKey)
      → All (λ p. (key_owner p == id) ≡ false) paths
      → read_public_keys paths files m id ≡ m id
  unfolding read_public_keys
  other_files [] id files m _ = refl
  other_files (p ∷ paths) id files m (here, later) =
      other_files paths id files (read_public_key_into_map p files m) later
      ∙ other_file p id files m here

  pub own_file :
      (id : String) (key : PublicKey) (files : Files) (m : Table String PublicKey)
      → lacks "/" id ≡ true
      → lacks "_" id ≡ true
      → read_rsa_public_key_from_file (key_path id) files ≡ ok key
      → read_public_key_into_map (key_path id) files m id ≡ some key
  unfolding read_public_key_into_map read_key_into_map
  own_file id key files m no_slash no_underscore readable =
      rw (readable, read_key_into_map)
        (rw (key_owner-key_path id no_slash no_underscore, eq_refl id) refl)

module _ ⦃bolt : Bolt⦄ ⦃crypto : Crypto⦄ ⦃keys : KeyText⦄ where
  -- A node whose name has no slash and no underscore makes its keys, of which the public one has a
  -- PKIX form, and another node walks over the files: the first node's, and others in any order, of
  -- which those that come later are not the first node's. Then the other node has the public key under
  -- the first node's name, and accepts what the first node signs with its private key.
  keys_exchanged :
      (a b : Node) (key : PrivateKey) (bytes : Bytes) (files : Files) (before after : List String)
      (message : Message) (signature : Bytes)
      → lacks "/" a.id ≡ true
      → lacks "_" a.id ≡ true
      → keys.marshal_pkix key.public_key ≡ some bytes
      → All (λ p. (key_owner p == a.id) ≡ false) after
      → sign_message (init_keys key a files).0.private_key message ≡ ok signature
      → let b' = node_reads_keys (before ++ key_path a.id ∷ after) (init_keys key a files).1 b in
        (b'.public_key_map a.id ≡ some key.public_key)
        × (is_signed_by a.id message signature b' ≡ true)
  unfolding init_keys save_public_key node_reads_keys is_signed_by get_public_key
  keys_exchanged a b key bytes files before after message signature no_slash no_underscore
        marshalled others signed =
      let path = key_path a.id in
      let files' = save_public_key key.public_key a files in
      let readable = read-save key.public_key path bytes files marshalled in
      let m = read_public_keys before files' b.public_key_map in
      let known =
        ap (λ (m' : Table String PublicKey). m' a.id)
          (read_public_keys-append before (path ∷ after) files' b.public_key_map)
        ∙ other_files after a.id files' (read_public_key_into_map path files' m) others
        ∙ own_file a.id key.public_key files' m no_slash no_underscore readable in
      (known, rw (known) (rw (verify_signature-sign_message key message signature signed) refl))

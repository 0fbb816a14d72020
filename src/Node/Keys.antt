-- ===== src/Node/Keys.antt =====
-- The keys of a node: initKeys, savePublicKey and readPublicKeyIntoMap of node/utils.go. Those of the
-- gateway in gateway/helpers.go differ in the path only.
pub mod Exchange
use Prim.Native.String.{◌++◌ as string_append}
use pbft_2pc.Prelude.{
  String, string_eq, Option, none, some, List, [], ◌∷◌, Table, assign, last?, Result, ok, err,
  panic,
}
use pbft_2pc.Strings.{split}
use pbft_2pc.Deps.{Bolt, PublicKey, PrivateKey, KeyText}
use pbft_2pc.Cryptox.KeyFiles.{Files, save_rsa_public_key_to_file, read_rsa_public_key_from_file}
use pbft_2pc.Node.{Node}

-- `fmt.Sprintf("keys/%s_pub.pem", node.Id)`
unfoldable pub key_path : String → String
key_path id = string_append "keys/" (string_append id "_pub.pem")

-- The name in front of the first `_` of the last part of a path. `Split` returns one part or more.
unfoldable pub key_owner : String → String
key_owner path = elim (last? (split "/" path)) [
  | none ↦ ""
  | some name ↦ elim (split "_" name) [ [] ↦ "" | owner ∷ parts ↦ owner ]
]

-- The map of keys after one file of the directory. A file that cannot be read is only logged.
unfoldable pub read_key_into_map :
    Result PublicKey → String → Table String PublicKey → Table String PublicKey
unfolding key_owner
read_key_into_map (ok key) path m = assign (key_owner path) (some key) m
read_key_into_map (err text) path m = m
read_key_into_map panic path m = m

module _ ⦃keys : KeyText⦄ where
  -- `readPublicKeyIntoMap`, for the map of a node and for that of the gateway
  unfoldable pub read_public_key_into_map :
      String → Files → Table String PublicKey → Table String PublicKey
  unfolding read_rsa_public_key_from_file read_key_into_map
  read_public_key_into_map path files m =
      read_key_into_map (read_rsa_public_key_from_file path files) path m

  -- One walk of `readPublicKeys` over the files of the directory.
  unfoldable pub read_public_keys :
      List String → Files → Table String PublicKey → Table String PublicKey
  unfolding read_public_key_into_map
  read_public_keys [] files m = m
  read_public_keys (path ∷ paths) files m =
      read_public_keys paths files (read_public_key_into_map path files m)

module _ ⦃bolt : Bolt⦄ ⦃keys : KeyText⦄ where
  -- `savePublicKey`; an error of the save is dropped.
  unfoldable pub save_public_key : PublicKey → Node → Files → Files
  unfolding key_path save_rsa_public_key_to_file
  save_public_key key n files = (save_rsa_public_key_to_file key (key_path n.id) files).1

  -- `initKeys` with the keys that were generated, up to the goroutine that reads the others'.
  unfoldable pub init_keys : PrivateKey → Node → Files → Node × Files
  unfolding save_public_key
  init_keys key n files = (record n { private_key = key }, save_public_key key.public_key n files)

  -- A walk of a node.
  unfoldable pub node_reads_keys : List String → Files → Node → Node
  unfolding read_public_keys
  node_reads_keys paths files n = record n {
    public_key_map = read_public_keys paths files n.public_key_map;
  }

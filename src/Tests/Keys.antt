-- ===== src/Tests/Keys.antt =====
-- S1 and the gateway make their keys, and S2 reads them between those of other nodes.
use pbft_2pc.Prelude.{string_eq, nat_eq, list_eq, true, none, some, [], ◌∷◌, ◌≡◌, refl}
use pbft_2pc.Messages.{Message}
use pbft_2pc.Deps.{PrivateKey}
use pbft_2pc.Instances.{list_bolt, toy_crypto, toy_keys, sample}
use pbft_2pc.Cryptox.{sign_message}
use pbft_2pc.Node.Certs.{is_signed_by}
use pbft_2pc.Node.Keys.{key_path, key_owner, node_reads_keys}
use pbft_2pc.Gateway.Routing.{get_signed_client_req}
use pbft_2pc.Gateway.Startup.{gateway_init_keys}
use pbft_2pc.Gateway.Startup.ClientKey.{seen_by_nodes, client_key_exchanged}
use pbft_2pc.Tests.Data.{start_node}

abbrev key : PrivateKey
key = record { public_key = record { modulus = 21; exponent = 3 }; private_exponent = 7 }

client_key_exchanged_example :
    let (key', files') = gateway_init_keys key (λ p. none) in
    let n' =
      node_reads_keys
        ("keys/S2_pub.pem" ∷ key_path "client" ∷ "keys/S3_pub.pem" ∷ [])
        (seen_by_nodes files')
        (start_node "S2") in
    let r = get_signed_client_req key' sample 50 in
    (n'.public_key_map "client" ≡ some key.public_key)
    × (is_signed_by "client" (Message.client_request r.client_request) r.signature n' ≡ true)
unfolding key_owner sign_message
client_key_exchanged_example =
    client_key_exchanged (start_node "S2") key (21 ∷ 3 ∷ []) (λ p. none) ("keys/S2_pub.pem" ∷ [])
      ("keys/S3_pub.pem" ∷ []) sample 50 (21 ∷ 1 ∷ 5 ∷ 50 ∷ []) refl (refl, tt) refl

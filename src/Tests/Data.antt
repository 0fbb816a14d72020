-- ===== src/Tests/Data.antt =====
-- A small cluster: keys, a client's request and the nodes S1 (leader) and S2 (backup) of the first cluster.
use pbft_2pc.Prelude.{
  String, string_eq, Int64, Option, none, some, List, [], ◌∷◌, Table, ◌==◌, if◌then◌else◌,
}
use pbft_2pc.Messages.{SignedClientRequest, PrePrepareRequest, CommitRequest, PrepareRequest}
use pbft_2pc.Deps.{PublicKey}
use pbft_2pc.Instances.{list_bolt, decimal_codec, toy_crypto, sample}
use pbft_2pc.Node.{Node, new_node}

abbrev pub key_of : String → PublicKey
key_of name =
    if name == "client"
    then record { modulus = 100; exponent = 3 }
    else if name == "S1"
    then record { modulus = 1; exponent = 3 }
    else if name == "S2"
    then record { modulus = 2; exponent = 3 }
    else record { modulus = 3; exponent = 3 }

abbrev pub keys : Table String PublicKey
keys name = some (key_of name)

abbrev pub peers_of : String → String → List String
peers_of me cluster =
    if cluster == "C1"
    then (if me == "S1" then "S2" ∷ "S3" ∷ "S4" ∷ [] else "S1" ∷ "S3" ∷ "S4" ∷ [])
    else "S5" ∷ []

abbrev pub start_node : String → Node
start_node me =
    new_node "C1" me (peers_of me) (record { public_key = key_of me; private_exponent = 7 }) keys
      "7" "8"

-- Client 7 pays client 1500.
abbrev pub request : SignedClientRequest
request = record {
  client_request = record { transaction = sample; timestamp = 50 };
  signature = 100 ∷ 1 ∷ sample.client_seq ∷ 50 ∷ [];
}

-- The leader's pre-prepare for it, with a digest of one's choice.
abbrev pub proposal : String → PrePrepareRequest
proposal digest = record {
  pre_prepare = record { view = 1; sequence = 1; digest = digest; status = "" };
  signature = 1 ∷ 2 ∷ 1 ∷ 1 ∷ [];
  client_req = some request;
}

-- The commit and the prepare of a server for the request at a sequence number of view 1.
abbrev pub commit_by : Int64 → String → CommitRequest
commit_by seq server = record {
  commit = record { view = 1; sequence = seq; digest = "5"; node_id = server };
  signature = (key_of server).modulus ∷ 4 ∷ 1 ∷ seq ∷ [];
}

abbrev pub prepare_by : Int64 → String → PrepareRequest
prepare_by seq server = record {
  prepare = record { view = 1; sequence = seq; digest = "5"; node_id = server };
  signature = (key_of server).modulus ∷ 3 ∷ 1 ∷ seq ∷ [];
}

-- The node that a run leaves, or another one if it waits.
abbrev pub node_after {ℓ} : {A : Type ℓ} → Option (A × Node) → Node → Node
node_after none n = n
node_after (some (a, m)) n = m

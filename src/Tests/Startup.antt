-- ===== src/Tests/Startup.antt =====
-- S2 is started with a configuration of two clusters.
use pbft_2pc.Prelude.{String, string_eq, List, [], ◌∷◌, ok, ◌≡◌, refl}
use pbft_2pc.Instances.{list_bolt, decimal_codec, toy_crypto}
use pbft_2pc.Node.{Node, new_node}
use pbft_2pc.Node.Startup.{
  ClusterStruct, cluster_of, names, establish_conns, fill_ports, node_map, port_of, main,
}
use pbft_2pc.Tests.Data.{key_of, keys}

abbrev clusters : List (String × ClusterStruct)
clusters =
    (
      "C1",
      record {
        nodes = ("S1", ":5001") ∷ ("S2", ":5002") ∷ ("S3", ":5003") ∷ [];
        start = "1";
        end = "1000";
      },
    )
    ∷ ("C2", record { nodes = ("S5", ":5005") ∷ []; start = "1001"; end = "2000" })
    ∷ []

abbrev started : Node
started =
    new_node "C1" "S2" (establish_conns clusters "S2")
      (record { public_key = key_of "S2"; private_exponent = 7 }) keys "1" "1000"

starts :
    main "S2" "C1" clusters (record { public_key = key_of "S2"; private_exponent = 7 }) keys
    ≡ ok (started, ":5002")
unfolding main cluster_of names establish_conns port_of node_map fill_ports
starts = refl

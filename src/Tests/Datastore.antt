-- ===== src/Tests/Datastore.antt =====
-- The datastore of a node after two saves.
use pbft_2pc.Prelude.{arith, string_eq, nat_eq, list_eq, Int64, some, ◌≡◌, refl}
use pbft_2pc.Instances.{list_bolt, decimal_codec, toy_crypto}
use pbft_2pc.Node.{Node, DbUnit, new_node}
use pbft_2pc.Node.Certs.{save_transaction_to_datastore, get_all_datastore}
use pbft_2pc.Node.Certs.Datastore.{
  AscendingFrom, IsListed, Filled, empty, saved, get_all_datastore_units,
}
use pbft_2pc.Tests.Data.{start_node}

-- Two saves out of order.
abbrev filled_node : Node
filled_node =
    save_transaction_to_datastore 2 "" 7 (save_transaction_to_datastore 5 "P" 6 (start_node "S1"))

fills : Filled filled_node
unfolding new_node
fills =
    saved _ 2 "" 7 (ground arith) (ground arith)
      (saved _ 5 "P" 6 (ground arith) (ground arith) (empty (start_node "S1") (λ i. refl) refl))

get_all_datastore_units_example :
    AscendingFrom 1 (get_all_datastore filled_node)
    × ((u : DbUnit)
        → IsListed u (get_all_datastore filled_node)
        → filled_node.datastore u.seq ≡ some u)
    × ((i : Int64) (u : DbUnit)
        → filled_node.datastore i ≡ some u
        → IsListed u (get_all_datastore filled_node))
get_all_datastore_units_example = get_all_datastore_units filled_node fills

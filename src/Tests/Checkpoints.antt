-- ===== src/Tests/Checkpoints.antt =====
-- S4 receives checkpoint messages of S2: one with an empty digest four times, and one with a digest.
use pbft_2pc.Prelude.{string_eq, nat_eq, list_eq, Option, none, some, [], ◌∷◌, ◌≡◌, refl}
use pbft_2pc.Messages.{SignedCheckpointRequest}
use pbft_2pc.Instances.{list_bolt, decimal_codec, toy_crypto}
use pbft_2pc.Cryptox.{verify_signature}
use pbft_2pc.Node.{Node, new_node}
use pbft_2pc.Node.Log.{get_public_key}
use pbft_2pc.Node.Checkpoints.{add_checkpoint, validate_checkpoint, checkpoint}
use pbft_2pc.Node.Checkpoints.Forgery.{receive, IsForged, checkpoint-IsForged}
use pbft_2pc.Node.Checkpoints.Waiting.{WithoutDigests, Unmoved, receive-WithoutDigests}
use pbft_2pc.Tests.Data.{start_node, key_of}

abbrev blank : SignedCheckpointRequest
blank = record {
  checkpoint = record { sequence = 40; digest = ""; node_id = "S2" };
  signature = 2 ∷ 5 ∷ 40 ∷ [];
}

checkpoint-IsForged_example :
    (n' : Node) × (receive (blank ∷ blank ∷ blank ∷ blank ∷ []) (start_node "S4") ≡ some n')
    × IsForged 40 (start_node "S4") n'
unfolding new_node verify_signature
checkpoint-IsForged_example =
    checkpoint-IsForged blank (key_of "S2") (start_node "S4") (refl, refl, refl, refl) refl refl
      refl

abbrev sound : SignedCheckpointRequest
sound = record {
  checkpoint = record { sequence = 40; digest = "5"; node_id = "S2" };
  signature = 2 ∷ 5 ∷ 40 ∷ [];
}

-- The node that some messages leave, or the one before them.
abbrev left_by : Option Node → Node
left_by none = start_node "S4"
left_by (some n) = n

abbrev kept : Node
kept = left_by (receive (sound ∷ sound ∷ []) (start_node "S4"))

keeps : receive (sound ∷ sound ∷ []) (start_node "S4") ≡ some kept
unfolding new_node verify_signature get_public_key add_checkpoint validate_checkpoint checkpoint
keeps = refl

receive-WithoutDigests_example : WithoutDigests kept × Unmoved (start_node "S4") kept
unfolding new_node
receive-WithoutDigests_example =
    receive-WithoutDigests (sound ∷ sound ∷ []) (start_node "S4") kept (refl, (refl, tt))
      (λ i c h. absurd (cc)) keeps

-- ===== src/Deps/Verbs.antt =====
-- What package `fmt` makes of the program's structs under the verb `%v`.
use pbft_2pc.Prelude.{String, List}
use pbft_2pc.Messages.{Transaction, ClientRequest, PrePrepare, Checkpoint, SignedCheckpointRequest}

pub record Format : Type 0 where
  pub show_transaction : Transaction → String
  pub show_client_request : ClientRequest → String
  pub show_pre_prepare : PrePrepare → String
  pub show_checkpoint : Checkpoint → String
  pub show_checkpoint_certs : List SignedCheckpointRequest → String

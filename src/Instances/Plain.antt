-- ===== src/Instances/Plain.antt =====
-- A format that shows each struct by its name.
use pbft_2pc.Deps.{Format}

instance abbrev pub plain_format : Format
plain_format = record {
  show_transaction = λ t. "transaction";
  show_client_request = λ r. "request";
  show_pre_prepare = λ p. "pre-prepare";
  show_checkpoint = λ c. "checkpoint";
  show_checkpoint_certs = λ cs. "checkpoints";
}

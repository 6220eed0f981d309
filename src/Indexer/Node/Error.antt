-- ===== src/Indexer/Node/Error.antt =====
-- The errors of the node worker (vault-indexer/src/indexer/node.rs). Texts that are only printed
-- are left out.
use mutinynet_indexer.Common.{ℕ, List}
use mutinynet_indexer.Common.Outcome.{Outcome}
pub use mutinynet_indexer.Common.Outcome.{ok, err, ok_or, guard, >>=-eq-ok, ◌>>=◌}

pub data Error : Type 0 where
  event_bus_send : Error
  event_bus_recv : Error
  socket_clone_fail : Error
  socket_shutdown_fail : Error
  failed_resolve : Error
  no_socket_address : Error
  connection : Error
  sending_msg : Error
  receiving_header : Error
  receiving_payload : Error
  wrong_magic : List ℕ → List ℕ → Error
  decoding_message : List ℕ → Error
  no_version_message : Error
  no_verack_message : Error
  self_connection : Error

abbrev pub Result {ℓ} : Type ℓ → Type ℓ
Result A = Outcome Error A

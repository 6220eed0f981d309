-- ===== src/Indexer/Event.antt =====
-- The events that the parts of the indexer pass to one another
-- (vault-indexer/src/indexer/event.rs).
use mutinynet_indexer.Common.{ℕ}
use mutinynet_indexer.Db.Vault.{VaultTxMeta}
use mutinynet_indexer.P2p.{NetworkMessage}
use mutinynet_indexer.Vault.Runes.{UnitTransaction}

pub record NewUnitTx : Type 0 where
  pub utx : UnitTransaction
  pub block_hash : ℕ
  pub block_pos : ℕ
  pub height : ℕ

pub data Event (H : Type 0) : Type 0 where
  handshaked : ℕ → Event H
  disconnected : Event H
  incoming_message : NetworkMessage H → Event H
  outcoming_message : NetworkMessage H → Event H
  termination : Event H
  new_transaction : VaultTxMeta → Event H
  new_unit_transaction : NewUnitTx → Event H

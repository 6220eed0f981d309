-- ===== src/P2p.antt =====
-- The messages of the `bitcoin` crate (`NetworkMessage`), as far as the source reads or makes them.
pub mod Blockdata
use mutinynet_indexer.Common.{ℕ, List}
use mutinynet_indexer.Common.Int.{ℤ}
use mutinynet_indexer.P2p.Blockdata.{Inventory}
use mutinynet_indexer.Vault.Bitcoin.{Transaction}

pub record GetHeadersMessage : Type 0 where
  pub locator_hashes : List ℕ
  pub stop_hash : ℕ

-- Of the message that opens a connection: the height is one of `i32`.
pub record VersionMessage : Type 0 where
  pub nonce : ℕ
  pub start_height : ℤ

pub record Block (H : Type 0) : Type 0 where
  pub header : H
  pub txdata : List Transaction

-- `other` stands for the kinds of messages that the source passes by.
pub data NetworkMessage (H : Type 0) : Type 0 where
  version : VersionMessage → NetworkMessage H
  verack : NetworkMessage H
  ping : ℕ → NetworkMessage H
  pong : ℕ → NetworkMessage H
  get_headers : GetHeadersMessage → NetworkMessage H
  headers : List H → NetworkMessage H
  get_data : List Inventory → NetworkMessage H
  inv : List Inventory → NetworkMessage H
  block : Block H → NetworkMessage H
  other : NetworkMessage H

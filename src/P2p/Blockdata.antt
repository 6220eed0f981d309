-- ===== src/P2p/Blockdata.antt =====
-- The entries of an inventory message of the `bitcoin` crate (`Inventory`).
use mutinynet_indexer.Common.{ℕ}

-- The source only tells blocks from the rest.
pub data Inventory : Type 0 where
  block : ℕ → Inventory
  other : Inventory

-- ===== src/Cache/Block.antt =====
-- What the cache uses of the block headers of the `bitcoin` crate.
use mutinynet_indexer.Common.{ℕ, ◌≡◌, ◌≢◌}

-- A header names its parent, and has a hash and a work. The last two fields state what the source
-- relies on where it takes a hash for its header, and the zero hash for "no block".
pub record BlockHeader (H : Type 0) : Type 0 where
  pub block_hash : H → ℕ
  pub prev_blockhash : H → ℕ
  pub work : H → ℕ
  pub hash_ne_zero : (h : H) → block_hash h ≢ 0
  pub hash_injective : (g h : H) → block_hash g ≡ block_hash h → g ≡ h

module _ {H : Type 0} ⦃b : BlockHeader H⦄ where
  abbrev pub block_hash : H → ℕ
  block_hash = b.block_hash

  abbrev pub prev_blockhash : H → ℕ
  prev_blockhash = b.prev_blockhash

  abbrev pub work : H → ℕ
  work = b.work

-- `BlockHash::from_byte_array([0u8; 32])`
abbrev pub zero_hash : ℕ
zero_hash = 0

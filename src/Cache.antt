-- ===== src/Cache.antt =====
-- The header cache (vault-indexer/src/cache): the chain graph in memory.
pub mod Block
pub mod Error
pub mod Chain
pub mod Headers

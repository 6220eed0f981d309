-- ===== src/Db.antt =====
-- The database (vault-indexer/src/db).
pub mod Error
pub mod Loaders
pub mod Header
pub mod Metadata
pub mod Vault
pub mod Setup

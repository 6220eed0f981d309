-- ===== src/Vault.antt =====
-- Vault transactions and UNIT transfers (vault-indexer/src/vault).
pub mod Names
pub mod Bitcoin
pub mod Action
pub mod Version
pub mod Transaction
pub mod Bytes
pub mod Parse
pub mod Encode
pub mod Errors
pub mod Custody
pub mod Runes

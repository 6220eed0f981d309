-- ===== src/Indexer/Node.antt =====
-- The connection to the node (vault-indexer/src/indexer/node.rs).
pub mod Error
pub mod Message
pub mod Worker
pub mod Process

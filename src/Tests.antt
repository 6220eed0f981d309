-- ===== src/Tests.antt =====
-- Runs of the model on small inputs.
mod Cache
mod Chain
mod Vault
mod Indexer
mod Restart
mod System
mod Node
mod Process
mod Service
mod Loaders
mod Main

-- ===== src/Vault/Version.antt =====
-- `VaultVersion` (vault-indexer/src/vault/transaction.rs).
use mutinynet_indexer.Common.{ℕ, Option, none, some, ◌==◌, if◌then◌else◌}

pub data VaultVersion : Type 0 where
  vault1_legacy vault1 : VaultVersion

unfoldable pub to_protocol : VaultVersion → ℕ
to_protocol vault1_legacy = 1
to_protocol vault1 = 1

unfoldable pub from_protocol : ℕ → Option VaultVersion
from_protocol v = if v == 1 then some vault1 else none

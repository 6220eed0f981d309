-- ===== src/Vault/Encode.antt =====
-- The payload of a vault transaction, described from its fields, and the parser
-- (vault-indexer/src/vault/transaction.rs) on what is laid out that way.
pub mod RoundTrip
use mutinynet_indexer.Common.{ℕ, ◌≡◌, Option, none, some, List, [], ◌∷◌, ◌++◌, length}
use mutinynet_indexer.Vault.Bitcoin.{op_return, op_pushnum_8, op_pushbytes_14, op_pushbytes_38}
use mutinynet_indexer.Vault.Action
use mutinynet_indexer.Vault.Version
use mutinynet_indexer.Vault.Version.{VaultVersion, vault1, vault1_legacy}
use mutinynet_indexer.Vault.Bytes.{to_be_bytes}
use mutinynet_indexer.Vault.Transaction.{VaultTx}

-- A price that is there.
unfoldable pub price_bytes : Option ℕ → List ℕ
price_bytes none = []
price_bytes (some price) = to_be_bytes price

-- A hash that is there.
unfoldable pub hash_bytes : Option (List ℕ) → List ℕ
hash_bytes none = []
hash_bytes (some hash) = hash

abbrev pub tail_bytes : VaultTx → List ℕ
tail_bytes v = price_bytes v.liquidation_price ++ hash_bytes v.liquidation_hash

-- The three numbers in the order of the version, and what follows them.
unfoldable pub number_bytes : VaultVersion → ℕ → ℕ → ℕ → List ℕ → List ℕ
number_bytes vault1 balance price timestamp rest =
    to_be_bytes balance ++ (to_be_bytes price ++ (to_be_bytes timestamp ++ rest))
number_bytes vault1_legacy balance price timestamp rest =
    to_be_bytes price ++ (to_be_bytes timestamp ++ (to_be_bytes balance ++ rest))

unfoldable pub push_opcode : VaultVersion → ℕ
push_opcode vault1 = op_pushbytes_38
push_opcode vault1_legacy = op_pushbytes_14

-- The script: two opcodes, the push, the version, the action, the numbers, the liquidation data.
unfoldable pub encode : VaultTx → List ℕ
unfolding number_bytes push_opcode price_bytes hash_bytes
encode v =
    op_return
    ∷ op_pushnum_8
    ∷ push_opcode v.version
    ∷ Version.to_protocol v.version
    ∷ Action.to_protocol v.action
    ∷ number_bytes v.version v.balance v.oracle_price v.oracle_timestamp (tail_bytes v)

-- A hash has 20 bytes, and stands only behind a price.
abbrev pub IsLaidOut : Option ℕ → Option (List ℕ) → Type 0
IsLaidOut none none = Unit {0}
IsLaidOut none (some hash) = ⊥
IsLaidOut (some price) none = Unit {0}
IsLaidOut (some price) (some hash) = length hash ≡ 20

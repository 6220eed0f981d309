-- ===== src/Vault/Transaction.antt =====
-- The data of vault transactions (vault-indexer/src/vault/transaction.rs).
use mutinynet_indexer.Common.{ℕ, Bool, true, false, Option, none, some, List}
use mutinynet_indexer.Vault.Action.{VaultAction}
use mutinynet_indexer.Vault.Version.{VaultVersion}

pub record VaultTx : Type 0 where
  pub txid : ℕ
  pub output : ℕ
  pub version : VaultVersion
  pub action : VaultAction
  pub balance : ℕ
  pub oracle_price : ℕ
  pub oracle_timestamp : ℕ
  pub liquidation_price : Option ℕ
  pub liquidation_hash : Option (List ℕ)

pub data MissingVaultField : Type 0 where
  version action balance oracle_price oracle_timestamp : MissingVaultField

pub data VaultParseError : Type 0 where
  no_op_return : VaultParseError
  no_op_push8 : VaultParseError
  mismatch_op_push8 : ℕ → VaultParseError
  no_op_pushbytes14 : VaultParseError
  mismatch_op_pushbytes : ℕ → VaultParseError
  missing_field : MissingVaultField → VaultParseError
  wrong_version : ℕ → VaultParseError
  wrong_action : ℕ → VaultParseError
  liquidation_hash_invalid_length : ℕ → VaultParseError

unfoldable pub is_definetely_not_vault : VaultParseError → Bool
is_definetely_not_vault no_op_return = true
is_definetely_not_vault no_op_push8 = true
is_definetely_not_vault (mismatch_op_push8 _) = true
is_definetely_not_vault no_op_pushbytes14 = true
is_definetely_not_vault _ = false

-- What a parse returns; `panic` is a failed assertion.
pub data Result {ℓ} (A : Type ℓ) : Type ℓ where
  panic : Result A
  err : VaultParseError → Result A
  ok : A → Result A

infixl 5 ◌>>=◌
abbrev pub ◌>>=◌ {ℓ κ} : {A : Type ℓ} {B : Type κ} → Result A → (A → Result B) → Result B
panic >>= next = panic
err refusal >>= next = err refusal
ok value >>= next = next value

-- `Option::ok_or`
abbrev pub ok_or {ℓ} : {A : Type ℓ} → Option A → VaultParseError → Result A
ok_or (some value) refusal = ok value
ok_or none refusal = err refusal

abbrev pub guard : Bool → VaultParseError → Result (Unit {0})
guard false refusal = err refusal
guard true refusal = ok tt

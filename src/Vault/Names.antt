-- ===== src/Vault/Names.antt =====
-- The names of actions and versions, as they stand in the database and in requests
-- (vault-indexer/src/vault/transaction.rs).
use Prim.Native.String.{String}
use text.Mathlib.Text.{◌==◌}
use mutinynet_indexer.Common.{◌≡◌, refl, Option, none, some, if◌then◌else◌}
use mutinynet_indexer.Common.Text.{Lowercase}
use mutinynet_indexer.Vault.Action.{VaultAction, opening, deposit, withdraw, borrow, repay}
use mutinynet_indexer.Vault.Version.{VaultVersion, vault1, vault1_legacy}

unfoldable pub action_to_str : VaultAction → String
action_to_str opening = "open"
action_to_str deposit = "deposit"
action_to_str withdraw = "withdraw"
action_to_str borrow = "borrow"
action_to_str repay = "repay"

-- The match of `from_str`, on a text in lower case.
unfoldable pub action_from_lowercase : String → Option VaultAction
action_from_lowercase s =
    if s == "open"
    then some opening
    else if s == "deposit"
    then some deposit
    else if s == "withdraw"
    then some withdraw
    else if s == "borrow"
    then some borrow
    else if s == "repay"
    then some repay
    else none

unfoldable pub action_from_str : ⦃l : Lowercase⦄ → String → Option VaultAction
unfolding action_from_lowercase
action_from_str ⦃l⦄ s = action_from_lowercase (l.to_lowercase s)

unfoldable pub version_to_str : VaultVersion → String
version_to_str vault1_legacy = "1_legacy"
version_to_str vault1 = "1"

unfoldable pub version_from_lowercase : String → Option VaultVersion
version_from_lowercase s =
    if s == "1_legacy" then some vault1_legacy else if s == "1" then some vault1 else none

unfoldable pub version_from_str : ⦃l : Lowercase⦄ → String → Option VaultVersion
unfolding version_from_lowercase
version_from_str ⦃l⦄ s = version_from_lowercase (l.to_lowercase s)

module _ ⦃l : Lowercase⦄ where
  action_read : (action : VaultAction) → action_from_str (action_to_str action) ≡ some action
  unfolding action_from_str action_to_str
  action_read opening = rw (l.to_lowercase_plain "open" refl) refl
  action_read deposit = rw (l.to_lowercase_plain "deposit" refl) refl
  action_read withdraw = rw (l.to_lowercase_plain "withdraw" refl) refl
  action_read borrow = rw (l.to_lowercase_plain "borrow" refl) refl
  action_read repay = rw (l.to_lowercase_plain "repay" refl) refl

  version_read : (version : VaultVersion) → version_from_str (version_to_str version) ≡ some version
  unfolding version_from_str version_to_str
  version_read vault1_legacy = rw (l.to_lowercase_plain "1_legacy" refl) refl
  version_read vault1 = rw (l.to_lowercase_plain "1" refl) refl

  -- The names under which the action and the version of a vault transaction are stored are read
  -- back as that action and that version.
  pub from_str-to_str_vault :
      (action : VaultAction) (version : VaultVersion)
      → (action_from_str (action_to_str action) ≡ some action)
        × (version_from_str (version_to_str version) ≡ some version)
  from_str-to_str_vault action version = (action_read action, version_read version)

-- ===== src/Tests/Vault.antt =====
-- Vault transactions (vault-indexer/src/vault, vault-indexer/src/db/vault).
use mutinynet_indexer.Common.{
  ℕ, ◌≡◌, ◌↔◌, refl, ap, Bool, true, false, none, some, List, [], ◌∷◌, ◌++◌, arith, ◌==◌, ==_iff,
  replicate,
}
use mutinynet_indexer.Common.Int.{pos, ◌-ℤ◌}
use mutinynet_indexer.Common.Dict.{lookup, insert}
use mutinynet_indexer.Vault.Action
use mutinynet_indexer.Vault.Action.{VaultAction, opening, deposit}
use mutinynet_indexer.Vault.Version.{vault1, vault1_legacy}
use mutinynet_indexer.Vault.Bitcoin.{TxOut, Transaction, Script, op_return}
use mutinynet_indexer.Vault.Transaction.{VaultTx, ok}
use mutinynet_indexer.Vault.Parse
use mutinynet_indexer.Vault.Encode
use mutinynet_indexer.Vault.Encode.RoundTrip.{from_tx-encode}
use mutinynet_indexer.Vault.Errors.{IsClassifiedTx, from_tx-IsClassified}
use mutinynet_indexer.Vault.Custody
use mutinynet_indexer.Db.Error.{ok as stored}
use mutinynet_indexer.Db.Vault as Tables
use mutinynet_indexer.Db.Vault.{VaultTables, VaultTxMeta, Place}
use mutinynet_indexer.Db.Vault.Invariant.{IsConsistent, volume_of, IsUnused}
use mutinynet_indexer.Db.Vault.Store.Consistent.{
  IsStored, store_vault_tx-IsStored, store_vault_tx-IsConsistent,
}

-- The test of the crate, written out.
abbrev pub starts_with_op_return : List ℕ → Bool
starts_with_op_return [] = false
starts_with_op_return (byte ∷ _) = byte == op_return

pub starts_with_op_return_iff :
    (s : List ℕ) → (starts_with_op_return s ≡ true) ↔ ((rest : List ℕ) × (s ≡ op_return ∷ rest))
starts_with_op_return_iff [] = ((λ e. cc), (λ h. cc h.1))
starts_with_op_return_iff (byte ∷ bytes) = (
  (λ e. (bytes, ap (λ n. n ∷ bytes) ((==_iff byte op_return).0 e))),
  (λ h. (==_iff byte op_return).1 (head_of h.1)),
)
  where
    head_of : {xs : List ℕ} → (byte ∷ bytes) ≡ (op_return ∷ xs) → byte ≡ op_return
    head_of e = cc

instance unfoldable pub script : Script
script = record {
  is_op_return = starts_with_op_return;
  is_op_return_iff = starts_with_op_return_iff;
}

-- An opening with a custody of 5000, whose payload is the second output.
abbrev pub opening_tx : VaultTx
opening_tx = record {
  txid = 77;
  output = 1;
  version = vault1;
  action = opening;
  balance = 100000;
  oracle_price = 64000;
  oracle_timestamp = 1700000000;
  liquidation_price = some 300;
  liquidation_hash = some (replicate 20 7);
}

abbrev pub plain_out : TxOut
plain_out = record { value = 546; script_pubkey = 81 ∷ [] }

abbrev pub opening_raw : Transaction
opening_raw = record {
  txid = 77;
  input = record { previous_txid = 3 } ∷ record { previous_txid = 4 } ∷ [];
  output =
      (plain_out ∷ [])
      ++ (record { value = 0; script_pubkey = Encode.encode opening_tx }
          ∷ record { value = 5000; script_pubkey = 81 ∷ [] }
          ∷ []);
}

from_tx-encode_example : Parse.from_tx opening_raw ≡ ok opening_tx
unfolding script
from_tx-encode_example =
    from_tx-encode opening_tx opening_raw (plain_out ∷ [])
      (record { value = 5000; script_pubkey = 81 ∷ [] } ∷ []) 0 refl refl (omega arith) refl
      (refl, tt) refl

-- An OP_RETURN output of another protocol.
abbrev other_raw : Transaction
other_raw = record {
  txid = 78;
  input = [];
  output = record { value = 0; script_pubkey = 106 ∷ 93 ∷ 4 ∷ [] } ∷ [];
}

from_tx-IsClassified_example : IsClassifiedTx other_raw.output (Parse.from_tx other_raw)
from_tx-IsClassified_example = from_tx-IsClassified other_raw

abbrev pub unit_raw : Transaction
unit_raw = record { txid = 4; input = []; output = [] }

-- No vault yet, and one UNIT transaction.
abbrev pub no_vaults : VaultTables
no_vaults = record {
  vaults = [];
  transactions = [];
  transactions_runes = (4, record { transaction = unit_raw; unit_amount = 100000 }) ∷ [];
}

pub no_vaults-IsConsistent : IsConsistent no_vaults
unfolding lookup volume_of IsUnused
no_vaults-IsConsistent = record {
  balanced = λ id row e. cc;
  unused = λ id e. tt;
  last = λ id row e. cc;
}

abbrev pub place : Place
place = record { block_hash = 9; block_pos = 1; height = 50 }

abbrev pub opening_meta : VaultTxMeta
opening_meta = record {
  vault_id = 77;
  vault_tx = opening_tx;
  block_hash = 9;
  block_pos = 1;
  height = 50;
  btc_custody = 5000;
  unit_volume = pos 100000;
  btc_volume = pos 5000;
  prev_tx = 77;
}

abbrev pub one_vault : VaultTables
one_vault = record {
  vaults =
      (
        77,
        record {
          output = 1;
          balance = 100000;
          oracle_price = 64000;
          oracle_timestamp = 1700000000;
          liquidation_price = some 300;
          liquidation_hash = some (replicate 20 7);
          custody = 5000;
          last_tx = 77;
        },
      )
      ∷ [];
  transactions = (77, opening_meta) ∷ [];
  transactions_runes = (4, record { transaction = unit_raw; unit_amount = 100000 }) ∷ [];
}

pub open_run :
    Tables.store_vault_tx opening_tx place opening_raw no_vaults ≡ stored (opening_meta, one_vault)
unfolding lookup insert ◌-ℤ◌ Tables.store_vault_tx Tables.find_parent_vault Tables.parent_vault
    Tables.find_vault_by_tx Tables.chain_vault Tables.create_vault Tables.update_vault
    Tables.update_row Tables.insert_row Tables.get_vault_chaining_info Tables.get_unit_volume
    Tables.load_unit_tx Tables.insert_vault_tx_raw Custody.assume_custody_value
    Custody.assume_parent_unit_tx Action.unit_volume_sign
open_run = refl

pub one_vault-IsConsistent : IsConsistent one_vault
one_vault-IsConsistent =
    store_vault_tx-IsConsistent opening_tx place opening_raw no_vaults one_vault opening_meta
      no_vaults-IsConsistent open_run

-- A deposit that brings the custody to 7000.
abbrev pub deposit_tx : VaultTx
deposit_tx = record {
  txid = 79;
  output = 1;
  version = vault1_legacy;
  action = deposit;
  balance = 100000;
  oracle_price = 64100;
  oracle_timestamp = 1700000600;
  liquidation_price = none;
  liquidation_hash = none;
}

abbrev pub deposit_raw : Transaction
deposit_raw = record {
  txid = 79;
  input = record { previous_txid = 77 } ∷ [];
  output = record { value = 7000; script_pubkey = 81 ∷ [] } ∷ [];
}

abbrev pub deposit_meta : VaultTxMeta
deposit_meta = record {
  vault_id = 77;
  vault_tx = deposit_tx;
  block_hash = 9;
  block_pos = 1;
  height = 50;
  btc_custody = 7000;
  unit_volume = pos 0;
  btc_volume = pos 2000;
  prev_tx = 77;
}

abbrev pub after_deposit : VaultTables
after_deposit = record {
  vaults =
      (
        77,
        record {
          output = 1;
          balance = 100000;
          oracle_price = 64100;
          oracle_timestamp = 1700000600;
          liquidation_price = none;
          liquidation_hash = none;
          custody = 7000;
          last_tx = 79;
        },
      )
      ∷ [];
  transactions = (77, opening_meta) ∷ (79, deposit_meta) ∷ [];
  transactions_runes = (4, record { transaction = unit_raw; unit_amount = 100000 }) ∷ [];
}

pub deposit_run :
    Tables.store_vault_tx deposit_tx place deposit_raw one_vault
    ≡ stored (deposit_meta, after_deposit)
unfolding lookup insert ◌-ℤ◌ Tables.store_vault_tx Tables.find_parent_vault Tables.parent_vault
    Tables.find_vault_by_tx Tables.chain_vault Tables.create_vault Tables.update_vault
    Tables.update_row Tables.insert_row Tables.get_vault_chaining_info Tables.get_unit_volume
    Tables.load_unit_tx Tables.insert_vault_tx_raw Custody.assume_custody_value
    Custody.assume_parent_unit_tx Action.unit_volume_sign
deposit_run = refl

store_vault_tx-IsStored_example : IsStored deposit_tx one_vault deposit_meta after_deposit
store_vault_tx-IsStored_example =
    store_vault_tx-IsStored deposit_tx place deposit_raw one_vault after_deposit deposit_meta
      one_vault-IsConsistent deposit_run

store_vault_tx-IsConsistent_example : IsConsistent after_deposit
store_vault_tx-IsConsistent_example =
    store_vault_tx-IsConsistent deposit_tx place deposit_raw one_vault after_deposit deposit_meta
      one_vault-IsConsistent deposit_run

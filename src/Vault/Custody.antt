-- ===== src/Vault/Custody.antt =====
-- What is assumed of the outputs and inputs of a vault transaction
-- (vault-indexer/src/vault/transaction.rs). The errors are given as the database methods pass them
-- on, with the id of the transaction.
use mutinynet_indexer.Common.{ℕ, Option, none, some, get_elem?}
use mutinynet_indexer.Vault.Bitcoin.{Transaction}
use mutinynet_indexer.Vault.Action.{opening, deposit, withdraw}
use mutinynet_indexer.Vault.Transaction.{VaultTx}
use mutinynet_indexer.Db.Error.{Result, ok, assume_btc_volume, assume_unit_tx, ok_or, ◌>>=◌}

-- The custody output of an opening is the third, that of every other action the first.
unfoldable pub assume_custody_value : VaultTx → Transaction → Result ℕ
assume_custody_value v tx = elim v.action [
  | opening ↦ (do
    custody_output ← ok_or (get_elem? tx.output 2) (assume_btc_volume tx.txid)
    ok custody_output.value)
  | _ ↦ (do
    cur_custody ← ok_or (get_elem? tx.output 0) (assume_btc_volume tx.txid)
    ok cur_custody.value)
]

abbrev pub connector_input_pos : ℕ
connector_input_pos = 1

-- The transaction that the connector input spends, for the actions that move UNIT.
unfoldable pub assume_parent_unit_tx : VaultTx → Transaction → Result (Option ℕ)
assume_parent_unit_tx v tx = elim v.action [
  | deposit ↦ ok none
  | withdraw ↦ ok none
  | _ ↦ (do
    connector_input ← ok_or (get_elem? tx.input connector_input_pos) (assume_unit_tx tx.txid)
    ok (some connector_input.previous_txid))
]

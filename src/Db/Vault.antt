-- ===== src/Db/Vault.antt =====
-- The tables of vaults, of vault transactions and of UNIT transactions
-- (vault-indexer/src/db/vault/basic.rs and rune.rs). A method returns the new database; a failed
-- one leaves the database as it was, since its statements run inside a transaction that is rolled
-- back.
pub mod Invariant
pub mod Store
pub mod Total
pub mod Advance
use mutinynet_indexer.Common.{
  ℕ, ◌+◌, ◌≡◌, Bool, true, false, not, Option, none, some, List, [], ◌∷◌, ◌++◌, get_elem?, ◌==◌,
  leb, ltb, ◌^◌, if◌then◌else◌,
}
use mutinynet_indexer.Common.Int.{ℤ, pos, negsuc, ◌-ℤ◌, signed32}
use mutinynet_indexer.Common.Dict.{Dict, lookup, insert, contains}
use mutinynet_indexer.Vault.Action
use mutinynet_indexer.Vault.Action.{VaultAction, opening, repay}
use mutinynet_indexer.Vault.Bitcoin.{Transaction}
use mutinynet_indexer.Vault.Transaction.{VaultTx}
use mutinynet_indexer.Vault.Custody.{assume_custody_value, assume_parent_unit_tx}
use mutinynet_indexer.Db.Error.{
  Error, Result, ok, err, vault_tx_no_inputs, unknown_vault_tx, unknown_vault_id, unknown_unit_tx,
  execute_query, panic, ok_or, guard, ◌>>=◌,
}

-- A row of `vaults`, without its key `open_txid`.
pub record VaultRow : Type 0 where
  pub output : ℕ
  pub balance : ℕ
  pub oracle_price : ℕ
  pub oracle_timestamp : ℕ
  pub liquidation_price : Option ℕ
  pub liquidation_hash : Option (List ℕ)
  pub custody : ℕ
  pub last_tx : ℕ

-- A row of `transactions`, without its key `txid`.
pub record VaultTxMeta : Type 0 where
  pub vault_id : ℕ
  pub vault_tx : VaultTx
  pub block_hash : ℕ
  pub block_pos : ℕ
  pub height : ℕ
  pub btc_custody : ℕ
  pub unit_volume : ℤ
  pub btc_volume : ℤ
  pub prev_tx : ℕ

pub record UnitTxMeta : Type 0 where
  pub transaction : Transaction
  pub unit_amount : ℕ

pub record VaultTables : Type 0 where
  pub vaults : Dict VaultRow
  pub transactions : Dict VaultTxMeta
  pub transactions_runes : Dict UnitTxMeta

-- `INSERT INTO` a table with a primary key.
unfoldable pub insert_row {ℓ} : {V : Type ℓ} → ℕ → V → Dict V → Result (Dict V)
insert_row key row table =
    if contains key table then err execute_query else ok (insert key row table)

-- A `u64` is stored only if it fits a signed column.
abbrev pub fits_column : ℕ → Bool
fits_column n = ltb n (2 ^ 63)

unfoldable pub store_unit_tx : Transaction → ℕ → VaultTables → Result VaultTables
unfolding insert_row
store_unit_tx tx unit_amount db = do
  transactions_runes ←
      insert_row tx.txid (record { transaction = tx; unit_amount = unit_amount })
        db.transactions_runes
  ok (record db { transactions_runes = transactions_runes })

unfoldable pub load_unit_tx : ℕ → VaultTables → Result UnitTxMeta
load_unit_tx txid db = ok_or (lookup txid db.transactions_runes) (unknown_unit_tx txid)

unfoldable pub drop_unit_index : VaultTables → VaultTables
drop_unit_index db = record db { transactions_runes = [] }

unfoldable pub find_vault_by_tx : ℕ → VaultTables → Option ℕ
find_vault_by_tx txid db = elim (lookup txid db.transactions) [
  | none ↦ none
  | some row ↦ some row.vault_id
]

unfoldable pub drop_vaults : VaultTables → VaultTables
drop_vaults db = record db { transactions = []; vaults = [] }

abbrev pub is_open : VaultAction → Bool
is_open opening = true
is_open _ = false

-- The vault of a transaction: its own for an opening, else that of the first input.
unfoldable pub parent_vault : Bool → VaultTx → Transaction → VaultTables → Result ℕ
unfolding find_vault_by_tx
parent_vault true v raw_tx db = ok v.txid
parent_vault false v raw_tx db = do
  first_input ← ok_or (get_elem? raw_tx.input 0) (vault_tx_no_inputs v.txid)
  ok_or (find_vault_by_tx first_input.previous_txid db) (unknown_vault_tx v.txid)

unfoldable pub find_parent_vault : VaultTx → Transaction → VaultTables → Result ℕ
unfolding parent_vault
find_parent_vault v raw_tx db = parent_vault (is_open v.action) v raw_tx db

unfoldable pub create_vault : VaultTx → Transaction → VaultTables → Result (ℕ × VaultTables)
unfolding insert_row
create_vault v raw_tx db = do
  _ ← guard (is_open v.action) panic
  custody ← assume_custody_value v raw_tx
  _ ← guard (fits_column custody) execute_query
  vaults ←
      insert_row v.txid
        (record {
          output = v.output;
          balance = v.balance;
          oracle_price = v.oracle_price;
          oracle_timestamp = v.oracle_timestamp;
          liquidation_price = v.liquidation_price;
          liquidation_hash = v.liquidation_hash;
          custody = custody;
          last_tx = v.txid;
        })
        db.vaults
  ok (custody, record db { vaults = vaults })

-- `UPDATE … WHERE` the key is given: nothing changes when there is no such row.
unfoldable pub update_row {ℓ} : {V : Type ℓ} → ℕ → (V → V) → Dict V → Dict V
update_row key f table = elim (lookup key table) [
  | none ↦ table
  | some row ↦ insert key (f row) table
]

unfoldable pub update_vault : ℕ → VaultTx → Transaction → VaultTables → Result (ℕ × VaultTables)
unfolding update_row
update_vault vault_id v raw_tx db = do
  _ ← guard (not (is_open v.action)) panic
  next_custody ← assume_custody_value v raw_tx
  _ ← guard (fits_column next_custody) execute_query
  let vaults =
      update_row vault_id
        (λ row. record row {
          balance = v.balance;
          oracle_price = v.oracle_price;
          oracle_timestamp = v.oracle_timestamp;
          liquidation_price = v.liquidation_price;
          liquidation_hash = v.liquidation_hash;
          custody = next_custody;
          last_tx = v.txid;
        })
        db.vaults
  ok (next_custody, record db { vaults = vaults })

unfoldable pub get_vault_chaining_info : ℕ → VaultTables → Result (ℕ × ℕ × ℕ)
get_vault_chaining_info vault_id db = do
  row ← ok_or (lookup vault_id db.vaults) (unknown_vault_id vault_id)
  ok (row.custody, row.balance, row.last_tx)

-- A product of an `i32` with a sign. The least `i32` cannot be negated: a release build leaves it.
abbrev pub with_sign : ℤ → ℕ → ℤ
with_sign (pos _) amount = signed32 amount
with_sign (negsuc _) amount = if amount == 2 ^ 31 then signed32 amount else pos 0 -ℤ signed32 amount

unfoldable pub get_unit_volume : VaultTx → Transaction → VaultTables → Result ℤ
unfolding load_unit_tx
get_unit_volume v raw_tx db = do
  parent ← assume_parent_unit_tx v raw_tx
  elim parent [
    | none ↦ ok (pos 0)
    | some unit_txid ↦ (do
      unit_tx ← load_unit_tx unit_txid db
      ok (with_sign (Action.unit_volume_sign v.action) unit_tx.unit_amount))
  ]

-- The parts of a row that its caller knows.
pub record Place : Type 0 where
  pub block_hash : ℕ
  pub block_pos : ℕ
  pub height : ℕ

unfoldable pub insert_vault_tx_raw :
    VaultTx → ℕ → Place → Transaction → ℕ → ℤ → ℕ → VaultTables → Result (ℤ × VaultTables)
unfolding insert_row
insert_vault_tx_raw v vault_id place raw_tx prev_custody unit_volume prev_tx db = do
  cur_custody ← assume_custody_value v raw_tx
  let btc_volume = if is_open v.action then pos cur_custody else pos cur_custody -ℤ pos prev_custody
  _ ← guard (fits_column cur_custody) execute_query
  transactions ←
      insert_row v.txid
        (record {
          vault_id = vault_id;
          vault_tx = v;
          block_hash = place.block_hash;
          block_pos = place.block_pos;
          height = place.height;
          btc_custody = cur_custody;
          unit_volume = unit_volume;
          btc_volume = btc_volume;
          prev_tx = prev_tx;
        })
        db.transactions
  ok (btc_volume, record db { transactions = transactions })

-- What the vault was like before the transaction: custody now, custody before, last transaction.
unfoldable pub chain_vault :
    Bool → ℕ → VaultTx → Transaction → VaultTables → Result (ℕ × ℕ × ℕ × VaultTables)
unfolding create_vault update_vault get_vault_chaining_info
chain_vault true vault_id v raw_tx db = do
  (btc_custody, db') ← create_vault v raw_tx db
  (_, _, prev_tx) ← get_vault_chaining_info vault_id db'
  ok (btc_custody, btc_custody, prev_tx, db')
chain_vault false vault_id v raw_tx db = do
  (prev_custody, _, prev_tx) ← get_vault_chaining_info vault_id db
  (btc_custody, db') ← update_vault vault_id v raw_tx db
  ok (btc_custody, prev_custody, prev_tx, db')

-- Store a vault transaction and bring its vault up to date.
unfoldable pub store_vault_tx :
    VaultTx → Place → Transaction → VaultTables → Result (VaultTxMeta × VaultTables)
unfolding find_parent_vault chain_vault get_unit_volume insert_vault_tx_raw
store_vault_tx v place raw_tx db = do
  vault_id ← find_parent_vault v raw_tx db
  (btc_custody, prev_custody, prev_tx, db') ← chain_vault (is_open v.action) vault_id v raw_tx db
  unit_volume ← get_unit_volume v raw_tx db'
  (btc_volume, db'') ←
      insert_vault_tx_raw v vault_id place raw_tx prev_custody unit_volume prev_tx db'
  ok (
    record {
      vault_id = vault_id;
      vault_tx = v;
      block_hash = place.block_hash;
      block_pos = place.block_pos;
      height = place.height;
      btc_custody = btc_custody;
      unit_volume = unit_volume;
      btc_volume = btc_volume;
      prev_tx = prev_tx;
    },
    db'',
  )

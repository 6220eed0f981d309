-- ===== src/Db/Loaders/RoundTrip.antt =====
-- Reading back what was written (vault-indexer/src/db/loaders.rs, db/vault/basic.rs and rune.rs).
use mutinynet_indexer.Common.{
  ℕ, ◌^◌, ◌<◌, ◌≡◌, refl, Option, none, some, List, length, get_elem?, arith,
}
use mutinynet_indexer.Common.Outcome.{ok}
use mutinynet_indexer.Common.Text.{Lowercase}
use mutinynet_indexer.Db.Loaders.{
  text, blob, Row, IsSigned, RowGet, HashBytes, Consensus, to_sql_option, to_sql_unsigned,
  field_encode_hash, field_decode_txid, field_decode_block_hash, field_decode_version,
  field_decode_action, field_decode_option_array, field_decode_transaction, load_vault_meta,
  load_unit_row, vault_row, unit_row, invert,
}
use mutinynet_indexer.Db.Vault.{VaultTxMeta}
use mutinynet_indexer.Vault.Action.{VaultAction}
use mutinynet_indexer.Vault.Bitcoin.{Transaction}
use mutinynet_indexer.Vault.Transaction.{VaultTx}
use mutinynet_indexer.Vault.Names.{action_to_str, version_to_str, from_str-to_str_vault}
use mutinynet_indexer.Vault.Version.{VaultVersion}

-- What is there has the property.
abbrev pub Holds? {ℓ} : {A : Type ℓ} → (A → Type 0) → Option A → Type 0
Holds? P none = Unit {0}
Holds? P (some a) = P a

-- The numbers of a record are of the types of its fields, and those that go through an `i64` fit it.
pub record IsTyped (m : VaultTxMeta) : Type 0 where
  pub vault_id : m.vault_id < 2 ^ 256
  pub txid : m.vault_tx.txid < 2 ^ 256
  pub output : m.vault_tx.output < 2 ^ 32
  pub balance : m.vault_tx.balance < 2 ^ 32
  pub oracle_price : m.vault_tx.oracle_price < 2 ^ 32
  pub oracle_timestamp : m.vault_tx.oracle_timestamp < 2 ^ 32
  pub liquidation_price : Holds? (λ price. price < 2 ^ 32) m.vault_tx.liquidation_price
  pub liquidation_hash : Holds? (λ (hash : List ℕ). length hash ≡ 20) m.vault_tx.liquidation_hash
  pub block_hash : m.block_hash < 2 ^ 256
  pub block_pos : m.block_pos < 2 ^ 63
  pub height : m.height < 2 ^ 32
  pub btc_custody : m.btc_custody < 2 ^ 63
  pub unit_volume : IsSigned 32 m.unit_volume
  pub btc_volume : IsSigned 64 m.btc_volume
  pub prev_tx : m.prev_tx < 2 ^ 256

module _ ⦃g : RowGet⦄ ⦃h : HashBytes⦄ (row : Row) (index : ℕ) where
  read_txid :
      (hash : ℕ)
      → get_elem? row index ≡ some (field_encode_hash hash)
      → hash < 2 ^ 256
      → field_decode_txid row index ≡ ok hash
  unfolding field_decode_txid field_encode_hash
  read_txid hash found fits =
      rw (g.get_blob_lem row index (h.to_byte_array hash) found)
        (rw (h.to_byte_array_length hash) (rw (h.from_to_byte_array hash fits) refl))

  read_block_hash :
      (hash : ℕ)
      → get_elem? row index ≡ some (field_encode_hash hash)
      → hash < 2 ^ 256
      → field_decode_block_hash row index ≡ ok hash
  unfolding field_decode_block_hash field_encode_hash
  read_block_hash hash found fits =
      rw (g.get_blob_lem row index (h.to_byte_array hash) found)
        (rw (h.to_byte_array_length hash) (rw (h.from_to_byte_array hash fits) refl))

module _ ⦃g : RowGet⦄ ⦃l : Lowercase⦄ (row : Row) (index : ℕ) where
  read_version :
      (version : VaultVersion)
      → get_elem? row index ≡ some (text (version_to_str version))
      → field_decode_version row index ≡ ok version
  unfolding field_decode_version
  read_version version found =
      rw (g.get_text_lem row index (version_to_str version) found)
        (rw (from_str-to_str_vault VaultAction.opening version).1 refl)

  read_action :
      (action : VaultAction)
      → get_elem? row index ≡ some (text (action_to_str action))
      → field_decode_action row index ≡ ok action
  unfolding field_decode_action
  read_action action found =
      rw (g.get_text_lem row index (action_to_str action) found)
        (rw (from_str-to_str_vault action VaultVersion.vault1).0 refl)

module _ ⦃g : RowGet⦄ (row : Row) (index : ℕ) where
  read_option_array :
      (hash : Option (List ℕ))
      → get_elem? row index ≡ some (to_sql_option blob hash)
      → Holds? (λ (bytes : List ℕ). length bytes ≡ 20) hash
      → field_decode_option_array row index ≡ ok hash
  unfolding field_decode_option_array invert
  read_option_array none found fits = rw (g.get_option_blob_none row index found) refl
  read_option_array (some bytes) found fits =
      rw (g.get_option_blob_some row index bytes found) (rw fits refl)

  read_option_unsigned :
      (price : Option ℕ)
      → get_elem? row index ≡ some (to_sql_option to_sql_unsigned price)
      → Holds? (λ n. n < 2 ^ 32) price
      → g.get_option_unsigned 32 row index ≡ ok price
  read_option_unsigned none found fits = g.get_option_unsigned_none 32 row index found
  read_option_unsigned (some n) found fits = g.get_option_unsigned_some 32 row index n found fits

module _ ⦃g : RowGet⦄ ⦃h : HashBytes⦄ ⦃l : Lowercase⦄ where
  -- The row that is written for a vault transaction is read back as the same record, with every
  -- column in the field it came from, when the numbers of the record are of the types of its
  -- fields and fit their columns.
  pub load_vault_meta-vault_row :
      (m : VaultTxMeta) (tx_bytes : List ℕ)
      → IsTyped m
      → load_vault_meta (vault_row m tx_bytes) ≡ ok m
  unfolding load_vault_meta vault_row
  load_vault_meta-vault_row m tx_bytes typed =
      let row : Row = vault_row m tx_bytes in
      let v : VaultTx = m.vault_tx in
      rw
        (
          read_txid row 3 m.vault_id refl typed.vault_id,
          read_txid row 0 v.txid refl typed.txid,
          g.get_unsigned_lem 32 row 1 v.output refl typed.output,
          read_version row 4 v.version refl,
          read_action row 5 v.action refl,
          g.get_unsigned_lem 32 row 6 v.balance refl typed.balance,
          g.get_unsigned_lem 32 row 7 v.oracle_price refl typed.oracle_price,
          g.get_unsigned_lem 32 row 8 v.oracle_timestamp refl typed.oracle_timestamp,
          read_option_unsigned row 9 v.liquidation_price refl typed.liquidation_price,
          read_option_array row 10 v.liquidation_hash refl typed.liquidation_hash,
          read_block_hash row 11 m.block_hash refl typed.block_hash,
          g.get_unsigned_lem 64 row 2 m.block_pos refl (omega (arith, typed.block_pos)),
          g.get_unsigned_lem 32 row 12 m.height refl typed.height,
          g.get_unsigned_lem 64 row 15 m.btc_custody refl (omega (arith, typed.btc_custody)),
          g.get_signed_lem 32 row 16 m.unit_volume refl typed.unit_volume,
          g.get_signed_lem 64 row 17 m.btc_volume refl typed.btc_volume,
          read_txid row 18 m.prev_tx refl typed.prev_tx,
        )
        refl

module _ ⦃g : RowGet⦄ ⦃h : HashBytes⦄ ⦃c : Consensus⦄ where
  -- The row that is written for a UNIT transaction is read back as that transaction and its
  -- amount, when the amount is a `u32` and the bytes are those of the transaction.
  pub load_unit_row-unit_row :
      (tx : Transaction) (tx_bytes : List ℕ) (unit_amount : ℕ)
      → c.consensus_decode tx_bytes ≡ some tx
      → unit_amount < 2 ^ 32
      → load_unit_row (unit_row tx tx_bytes unit_amount)
        ≡ ok (record { transaction = tx; unit_amount = unit_amount })
  unfolding load_unit_row unit_row field_decode_transaction
  load_unit_row-unit_row tx tx_bytes unit_amount read fits =
      let row : Row = unit_row tx tx_bytes unit_amount in
      rw
        (
          g.get_blob_lem row 1 tx_bytes refl,
          read,
          g.get_unsigned_lem 32 row 2 unit_amount refl fits,
        )
        refl

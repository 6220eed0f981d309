-- ===== src/Db/Loaders.antt =====
-- How the fields of a row are read and written (vault-indexer/src/db/loaders.rs), and the rows of
-- the vault transactions and of the UNIT transactions (db/vault/basic.rs, db/vault/rune.rs).
pub mod RoundTrip
pub mod Readable
use Prim.Native.String.{String}
use mathlib.Core.Option
use mutinynet_indexer.Common.{
  ℕ, suc, ◌-◌, ◌^◌, ◌<◌, ◌≡◌, Option, none, some, List, [], ◌∷◌, get_elem?, length, ◌==◌,
  if◌then◌else◌,
}
use mutinynet_indexer.Common.Int.{ℤ, pos, negsuc}
use mutinynet_indexer.Common.Outcome.{Outcome, ok, err, ok_or, ◌>>=◌}
use mutinynet_indexer.Common.Text.{Lowercase}
use mutinynet_indexer.Db.Vault.{VaultTxMeta, UnitTxMeta}
use mutinynet_indexer.Vault.Action.{VaultAction}
use mutinynet_indexer.Vault.Bitcoin.{Transaction}
use mutinynet_indexer.Vault.Names.{action_to_str, action_from_str, version_to_str, version_from_str}
use mutinynet_indexer.Vault.Version.{VaultVersion}

-- `rusqlite::types::Value`, less the real numbers, which are not stored.
pub data Value : Type 0 where
  null : Value
  integer : ℤ → Value
  text : String → Value
  blob : List ℕ → Value

-- `rusqlite::types::Type`
pub data ColumnType : Type 0 where
  null integer text blob : ColumnType

-- The errors of a field that are put into `FromSqlConversionFailure`.
pub data FieldError : Type 0 where
  txid_wrong_size : List ℕ → FieldError
  tip_block_hash_wrong_size : List ℕ → FieldError
  array_wrong_size : ℕ → List ℕ → FieldError
  unknown_vault_version_str : String → FieldError
  unknown_vault_action_str : String → FieldError
  transaction_decode : List ℕ → FieldError

-- `rusqlite::Error`, as far as a row that is read meets it.
pub data RowError : Type 0 where
  from_sql_conversion_failure : ℕ → ColumnType → FieldError → RowError
  invalid_column_type : ℕ → RowError
  integral_value_out_of_range : ℕ → RowError

abbrev pub Row : Type 0
Row = List Value

abbrev pub Result {ℓ} : Type ℓ → Type ℓ
Result A = Outcome RowError A

-- A number that fits a signed type of w bits.
abbrev pub IsSigned : ℕ → ℤ → Type 0
IsSigned w (pos n) = n < 2 ^ (w - 1)
IsSigned w (negsuc n) = n < 2 ^ (w - 1)

-- `Row::get` of rusqlite, at the types that are asked for: the text and the bytes of a column, and
-- the integers, at the unsigned types of the given number of bits and at the signed ones.
pub record RowGet : Type 0 where
  pub get_blob : Row → ℕ → Result (List ℕ)
  pub get_option_blob : Row → ℕ → Result (Option (List ℕ))
  pub get_text : Row → ℕ → Result String
  pub get_unsigned : ℕ → Row → ℕ → Result ℕ
  pub get_option_unsigned : ℕ → Row → ℕ → Result (Option ℕ)
  pub get_signed : ℕ → Row → ℕ → Result ℤ
  pub get_blob_lem :
      (row : Row) (index : ℕ) (bytes : List ℕ)
      → get_elem? row index ≡ some (blob bytes)
      → get_blob row index ≡ ok bytes
  pub get_option_blob_some :
      (row : Row) (index : ℕ) (bytes : List ℕ)
      → get_elem? row index ≡ some (blob bytes)
      → get_option_blob row index ≡ ok (some bytes)
  pub get_option_blob_none :
      (row : Row) (index : ℕ)
      → get_elem? row index ≡ some null
      → get_option_blob row index ≡ ok none
  pub get_text_lem :
      (row : Row) (index : ℕ) (s : String)
      → get_elem? row index ≡ some (text s)
      → get_text row index ≡ ok s
  pub get_unsigned_lem :
      (w : ℕ) (row : Row) (index n : ℕ)
      → get_elem? row index ≡ some (integer (pos n))
      → n < 2 ^ w
      → get_unsigned w row index ≡ ok n
  pub get_option_unsigned_some :
      (w : ℕ) (row : Row) (index n : ℕ)
      → get_elem? row index ≡ some (integer (pos n))
      → n < 2 ^ w
      → get_option_unsigned w row index ≡ ok (some n)
  pub get_option_unsigned_none :
      (w : ℕ) (row : Row) (index : ℕ)
      → get_elem? row index ≡ some null
      → get_option_unsigned w row index ≡ ok none
  pub get_signed_lem :
      (w : ℕ) (row : Row) (index : ℕ) (z : ℤ)
      → get_elem? row index ≡ some (integer z)
      → IsSigned w z
      → get_signed w row index ≡ ok z

-- `Txid` and `BlockHash` of the bitcoin crate, and their arrays of bytes.
pub record HashBytes : Type 0 where
  pub to_byte_array : ℕ → List ℕ
  pub from_byte_array : List ℕ → ℕ
  pub to_byte_array_length : (h : ℕ) → length (to_byte_array h) ≡ 32
  pub from_to_byte_array : (h : ℕ) → h < 2 ^ 256 → from_byte_array (to_byte_array h) ≡ h

-- `consensus_decode` of the bitcoin crate on a transaction.
pub record Consensus : Type 0 where
  pub consensus_decode : List ℕ → Option Transaction

-- `try_into` of a vector into an array of n bytes.
abbrev pub to_array : ℕ → List ℕ → Option (List ℕ)
to_array n bytes = if length bytes == n then some bytes else none

abbrev pub map_outcome {ε ℓ κ} :
    {E : Type ε} {A : Type ℓ} {B : Type κ} → (A → B) → Outcome E A → Outcome E B
map_outcome f (err stop) = err stop
map_outcome f (ok value) = ok (f value)

unfoldable pub invert {ε ℓ} :
    {E : Type ε} {A : Type ℓ} → Option (Outcome E A) → Outcome E (Option A)
invert none = ok none
invert (some r) = map_outcome some r

-- The `map_err` that names the column.
abbrev pub conversion {ℓ} : {A : Type ℓ} → ℕ → ColumnType → FieldError → Option A → Result A
conversion index type stop converted = ok_or converted (from_sql_conversion_failure index type stop)

abbrev pub sized_20 : ℕ → List ℕ → Result (List ℕ)
sized_20 index bytes =
    conversion index ColumnType.blob (array_wrong_size 20 bytes) (to_array 20 bytes)

-- `ToSql` of an option.
abbrev pub to_sql_option {ℓ} : {A : Type ℓ} → (A → Value) → Option A → Value
to_sql_option to_sql none = null
to_sql_option to_sql (some value) = to_sql value

abbrev pub to_sql_unsigned : ℕ → Value
to_sql_unsigned n = integer (pos n)

-- `FieldEncode` for a `Txid` and for a `BlockHash`.
unfoldable pub field_encode_hash : ⦃h : HashBytes⦄ → ℕ → Value
field_encode_hash ⦃h⦄ hash = blob (h.to_byte_array hash)

module _ ⦃g : RowGet⦄ ⦃h : HashBytes⦄ where
  unfoldable pub field_decode_txid : Row → ℕ → Result ℕ
  field_decode_txid row index = do
    txid_bytes ← g.get_blob row index
    txid_bytes_sized ←
        conversion index ColumnType.blob (txid_wrong_size txid_bytes) (to_array 32 txid_bytes)
    ok (h.from_byte_array txid_bytes_sized)

  unfoldable pub field_decode_block_hash : Row → ℕ → Result ℕ
  field_decode_block_hash row index = do
    hash_bytes ← g.get_blob row index
    hash_bytes_sized ←
        conversion index ColumnType.blob (tip_block_hash_wrong_size hash_bytes)
          (to_array 32 hash_bytes)
    ok (h.from_byte_array hash_bytes_sized)

module _ ⦃g : RowGet⦄ ⦃l : Lowercase⦄ where
  unfoldable pub field_decode_version : Row → ℕ → Result VaultVersion
  unfolding version_from_str
  field_decode_version row index = do
    version_str ← g.get_text row index
    conversion index ColumnType.text (unknown_vault_version_str version_str)
        (version_from_str version_str)

  unfoldable pub field_decode_action : Row → ℕ → Result VaultAction
  unfolding action_from_str
  field_decode_action row index = do
    action_str ← g.get_text row index
    conversion index ColumnType.text (unknown_vault_action_str action_str)
        (action_from_str action_str)

module _ ⦃g : RowGet⦄ where
  unfoldable pub field_decode_array : Row → ℕ → Result (List ℕ)
  field_decode_array row index = do bytes ← g.get_blob row index; sized_20 index bytes

  unfoldable pub field_decode_option_array : Row → ℕ → Result (Option (List ℕ))
  unfolding invert
  field_decode_option_array row index = do
    mbytes ← g.get_option_blob row index
    invert (Option.map (sized_20 index) mbytes)

  unfoldable pub field_decode_transaction : ⦃c : Consensus⦄ → Row → ℕ → Result Transaction
  field_decode_transaction ⦃c⦄ row index = do
    tx_bytes ← g.get_blob row index
    conversion index ColumnType.blob (transaction_decode tx_bytes) (c.consensus_decode tx_bytes)

  -- A row of `transactions_runes` that is read.
  unfoldable pub load_unit_row : ⦃c : Consensus⦄ → Row → Result UnitTxMeta
  unfolding field_decode_transaction
  load_unit_row row = do
    transaction ← field_decode_transaction row 1
    unit_amount ← g.get_unsigned 32 row 2
    ok (record { transaction = transaction; unit_amount = unit_amount })

module _ ⦃g : RowGet⦄ ⦃h : HashBytes⦄ ⦃l : Lowercase⦄ where
  unfoldable pub load_vault_meta : Row → Result VaultTxMeta
  unfolding field_decode_txid field_decode_block_hash field_decode_version field_decode_action
      field_decode_option_array
  load_vault_meta row = do
    vault_id ← field_decode_txid row 3
    txid ← field_decode_txid row 0
    output ← g.get_unsigned 32 row 1
    version ← field_decode_version row 4
    action ← field_decode_action row 5
    balance ← g.get_unsigned 32 row 6
    oracle_price ← g.get_unsigned 32 row 7
    oracle_timestamp ← g.get_unsigned 32 row 8
    liquidation_price ← g.get_option_unsigned 32 row 9
    liquidation_hash ← field_decode_option_array row 10
    block_hash ← field_decode_block_hash row 11
    block_pos ← g.get_unsigned 64 row 2
    height ← g.get_unsigned 32 row 12
    btc_custody ← g.get_unsigned 64 row 15
    unit_volume ← g.get_signed 32 row 16
    btc_volume ← g.get_signed 64 row 17
    prev_tx ← field_decode_txid row 18
    ok (record {
      vault_id = vault_id;
      vault_tx = record {
        txid = txid;
        output = output;
        version = version;
        action = action;
        balance = balance;
        oracle_price = oracle_price;
        oracle_timestamp = oracle_timestamp;
        liquidation_price = liquidation_price;
        liquidation_hash = liquidation_hash;
      };
      block_hash = block_hash;
      block_pos = block_pos;
      height = height;
      btc_custody = btc_custody;
      unit_volume = unit_volume;
      btc_volume = btc_volume;
      prev_tx = prev_tx;
    })

-- The row that is inserted for a vault transaction, in the order of the columns, with the bytes of
-- the transaction as `consensus_encode` of the bitcoin crate gives them.
unfoldable pub vault_row : ⦃h : HashBytes⦄ → VaultTxMeta → List ℕ → Row
unfolding field_encode_hash
vault_row m tx_bytes =
    field_encode_hash m.vault_tx.txid
    ∷ to_sql_unsigned m.vault_tx.output
    ∷ to_sql_unsigned m.block_pos
    ∷ field_encode_hash m.vault_id
    ∷ text (version_to_str m.vault_tx.version)
    ∷ text (action_to_str m.vault_tx.action)
    ∷ to_sql_unsigned m.vault_tx.balance
    ∷ to_sql_unsigned m.vault_tx.oracle_price
    ∷ to_sql_unsigned m.vault_tx.oracle_timestamp
    ∷ to_sql_option to_sql_unsigned m.vault_tx.liquidation_price
    ∷ to_sql_option blob m.vault_tx.liquidation_hash
    ∷ field_encode_hash m.block_hash
    ∷ to_sql_unsigned m.height
    ∷ to_sql_unsigned 1
    ∷ blob tx_bytes
    ∷ to_sql_unsigned m.btc_custody
    ∷ integer m.unit_volume
    ∷ integer m.btc_volume
    ∷ field_encode_hash m.prev_tx
    ∷ []

-- The row that is inserted for a UNIT transaction.
unfoldable pub unit_row : ⦃h : HashBytes⦄ → Transaction → List ℕ → ℕ → Row
unfolding field_encode_hash
unit_row tx tx_bytes unit_amount =
    field_encode_hash tx.txid ∷ blob tx_bytes ∷ to_sql_unsigned unit_amount ∷ []

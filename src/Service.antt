-- ===== src/Service.antt =====
-- The answers of the websocket service (vault-indexer/src/service.rs).
pub mod Client
use Prim.Native.String.{String}
use mutinynet_indexer.Common.{ℕ, Option, none, some, List, [], ◌∷◌, map, ◌*◌}
use mutinynet_indexer.Common.Int.{ℤ}
use mutinynet_indexer.Common.Outcome.{Outcome, ok, err, ◌>>=◌}
use mutinynet_indexer.Db.Error.{Error as DbError, Result as DbResult}
use mutinynet_indexer.Common.Text.{Lowercase}
use mutinynet_indexer.Db.Loaders.{RowGet, HashBytes}
use mutinynet_indexer.Db.Vault.{VaultTxMeta, VaultTables}
use mutinynet_indexer.Db.Vault.Advance.{
  ActionAggItem, RowOrder, range_history_all, range_history_vault, action_aggregated,
  overall_volume,
}
use mutinynet_indexer.Network.{Network}
use mutinynet_indexer.Network.Names.{explorer_url}
use mutinynet_indexer.Vault.Action.{VaultAction}
use mutinynet_indexer.Vault.Names.{action_to_str, version_to_str}
use mutinynet_indexer.Vault.Transaction.{VaultTx}

pub data Error : Type 0 where
  websocket : Error
  client_error : Error
  unsupported_binary : Error
  encoding_message : Error
  validate_txid : String → Error
  database : DbError → Error
  sending_bus : Error
  db_lock : Error

abbrev pub Result {ℓ} : Type ℓ → Type ℓ
Result A = Outcome Error A

-- The question mark operator on a result of the database.
abbrev pub from_database : {A : Type 0} → DbResult A → Result A
from_database (err e) = err (database e)
from_database (ok a) = ok a

pub data TimeSpan : Type 0 where
  hour day week month : TimeSpan

-- The seconds of a time span.
unfoldable pub time_width : TimeSpan → ℕ
time_width hour = 3600
time_width day = 3600 * 24
time_width week = 3600 * 24 * 7
time_width month = 3600 * 24 * 7 * 30

pub data Request : Type 0 where
  all_history : Option ℕ → Option ℕ → Request
  vault_history : String → Option ℕ → Option ℕ → Request
  action_history : VaultAction → Option TimeSpan → Request
  overall_volume_request : Request

-- The texts of hashes, from the `bitcoin` and `hex` crates, and back.
pub record HashText : Type 0 where
  pub to_string : ℕ → String
  pub encode : List ℕ → String
  pub txid_from_str : String → Option ℕ

pub record VaultTxInfo : Type 0 where
  pub vault_id : String
  pub txid : String
  pub op_return_output : ℕ
  pub version : String
  pub action : String
  pub balance : ℕ
  pub oracle_price : ℕ
  pub oracle_timestamp : ℕ
  pub liquidation_price : Option ℕ
  pub liquidation_hash : Option String
  pub block_hash : String
  pub height : ℕ
  pub tx_url : String
  pub btc_custody : ℕ
  pub unit_volume : ℤ
  pub btc_volume : ℤ
  pub prev_tx : String

pub data Response : Type 0 where
  new_transaction : VaultTxInfo → Response
  all_history_response : List VaultTxInfo → Response
  vault_history_response : List VaultTxInfo → Response
  action_history_response : List ActionAggItem → Response
  overall_volume_response : ℕ → ℕ → Response

module _ ⦃h : HashText⦄ where
  unfoldable pub from_db_metainfo : Network → VaultTxMeta → VaultTxInfo
  unfolding explorer_url action_to_str version_to_str
  from_db_metainfo network meta = record {
    vault_id = h.to_string meta.vault_id;
    txid = h.to_string meta.vault_tx.txid;
    op_return_output = meta.vault_tx.output;
    version = version_to_str meta.vault_tx.version;
    action = action_to_str meta.vault_tx.action;
    balance = meta.vault_tx.balance;
    oracle_price = meta.vault_tx.oracle_price;
    oracle_timestamp = meta.vault_tx.oracle_timestamp;
    liquidation_price = meta.vault_tx.liquidation_price;
    liquidation_hash = elim meta.vault_tx.liquidation_hash [
      | none ↦ none
      | some hash ↦ some (h.encode hash)
    ];
    block_hash = h.to_string meta.block_hash;
    height = meta.height;
    tx_url = explorer_url network (h.to_string meta.vault_tx.txid);
    btc_custody = meta.btc_custody;
    unit_volume = meta.unit_volume;
    btc_volume = meta.btc_volume;
    prev_tx = explorer_url network (h.to_string meta.prev_tx);
  }

module _ ⦃g : RowGet⦄ ⦃hb : HashBytes⦄ ⦃l : Lowercase⦄ ⦃q : RowOrder⦄ ⦃h : HashText⦄ where
  unfoldable pub handler_all_history : Network → VaultTables → Option ℕ → Option ℕ → Result Response
  unfolding range_history_all from_db_metainfo
  handler_all_history network db timestamp_start timestamp_end = do
    metas ← from_database (range_history_all timestamp_start timestamp_end db)
    ok (all_history_response (map (from_db_metainfo network) metas))

  unfoldable pub handler_vault_history :
      Network → VaultTables → ℕ → Option ℕ → Option ℕ → Result Response
  unfolding range_history_vault from_db_metainfo
  handler_vault_history network db vault_open_txid timestamp_start timestamp_end = do
    metas ← from_database (range_history_vault vault_open_txid timestamp_start timestamp_end db)
    ok (vault_history_response (map (from_db_metainfo network) metas))

  abbrev pub span_or_day : Option TimeSpan → TimeSpan
  span_or_day none = day
  span_or_day (some timespan) = timespan

  unfoldable pub handler_action_history :
      VaultTables → VaultAction → Option TimeSpan → Result Response
  unfolding action_aggregated time_width
  handler_action_history db action timespan = do
    aggs ← from_database (action_aggregated action (time_width (span_or_day timespan)) db)
    ok (action_history_response aggs)

  unfoldable pub handler_overall_volume : VaultTables → Result Response
  unfolding overall_volume
  handler_overall_volume db = do
    (btc_volume, unit_volume) ← from_database (overall_volume db)
    ok (overall_volume_response btc_volume unit_volume)

  unfoldable pub process_request : Network → Request → VaultTables → Result Response
  unfolding handler_all_history handler_vault_history handler_action_history handler_overall_volume
  process_request network (all_history start end) db = handler_all_history network db start end
  process_request network (vault_history vault_open_txid start end) db =
      elim (h.txid_from_str vault_open_txid) [
        | none ↦ err (validate_txid vault_open_txid)
        | some txid ↦ handler_vault_history network db txid start end
      ]
  process_request network (action_history action timespan) db =
      handler_action_history db action timespan
  process_request network overall_volume_request db = handler_overall_volume db

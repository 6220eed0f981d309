-- ===== src/Db/Setup.antt =====
-- The database as a whole, and its set-up (vault-indexer/src/db/mod.rs).
pub mod Fresh
pub mod Again
use mutinynet_indexer.Common.{ℕ, Bool, true, false, none, some, [], ◌∷◌, not, if◌then◌else◌}
use mutinynet_indexer.Common.Dict.{contains}
use mutinynet_indexer.Cache.Block.{BlockHeader, block_hash}
use mutinynet_indexer.Network.{Network, is_same}
use mutinynet_indexer.Db.Error.{Result, ok, database_network_mismatch, guard, ◌>>=◌}
use mutinynet_indexer.Db.Header.{HeaderRecord, HeadersTable, load_block_header, store_raw_headers}
use mutinynet_indexer.Db.Metadata.{
  DbMetadata, MetaTable, has_metadata, store_metadata, get_network, set_scanned_height,
}
use mutinynet_indexer.Db.Vault.{VaultTables, drop_vaults, drop_unit_index}

pub record Database (H : Type 0) : Type 0 where
  pub headers : HeadersTable H
  pub metadata : MetaTable
  pub vaults : VaultTables

-- The genesis headers, which the `bitcoin` crate has, or decodes from bytes of the source.
pub record Genesis (H : Type 0) : Type 0 where
  pub genesis_header : Network → H

-- A database file whose tables were just created.
abbrev pub empty_database : {H : Type 0} → Database H
empty_database = record {
  headers = [];
  metadata = none;
  vaults = record { vaults = []; transactions = []; transactions_runes = [] };
}

unfoldable pub check_network : Network → MetaTable → Result MetaTable
unfolding get_network
check_network network table = do
  db_network ← get_network table
  _ ← guard (is_same network db_network) (database_network_mismatch db_network network)
  ok table

-- The metadata are made, or the network of those that are there is checked.
unfoldable pub add_metadata : Network → ℕ → ℕ → MetaTable → Result MetaTable
unfolding has_metadata store_metadata check_network
add_metadata network genesis_hash start_height table =
    let fresh : DbMetadata = record {
      network = network;
      tip_block_hash = genesis_hash;
      scanned_height = start_height;
    } in
    if not (has_metadata table)
    then ok (store_metadata fresh table)
    else check_network network table

module _ {H : Type 0} ⦃b : BlockHeader H⦄ where
  unfoldable pub add_genesis : H → HeadersTable H → HeadersTable H
  unfolding load_block_header store_raw_headers
  add_genesis genesis table = elim (load_block_header (block_hash genesis) table) [
    | none ↦
        store_raw_headers (record { header = genesis; height = 0; in_longest = true } ∷ []) table
    | some _ ↦ table
  ]

  unfoldable pub reset_scan : Bool → ℕ → Database H → Result (Database H)
  unfolding drop_vaults drop_unit_index set_scanned_height
  reset_scan false start_height db = ok db
  reset_scan true start_height db = do
    metadata ← set_scanned_height start_height db.metadata
    ok (record db { vaults = drop_unit_index (drop_vaults db.vaults); metadata = metadata })

  -- Opens a database file, with what was in it.
  unfoldable pub initialize_db :
      ⦃g : Genesis H⦄ → Network → ℕ → Bool → Database H → Result (Database H)
  unfolding add_genesis add_metadata reset_scan
  initialize_db ⦃g⦄ network start_height rescan db = do
    let genesis = g.genesis_header network
    let headers = add_genesis genesis db.headers
    metadata ← add_metadata network (block_hash genesis) start_height db.metadata
    reset_scan rescan start_height (record db { headers = headers; metadata = metadata })

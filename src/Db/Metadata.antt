-- ===== src/Db/Metadata.antt =====
-- The table of metadata (vault-indexer/src/db/metadata.rs): at most one row.
use mutinynet_indexer.Common.{ℕ, Bool, true, false, Option, none, some}
use mutinynet_indexer.Network.{Network}
use mutinynet_indexer.Db.Error.{Result, ok, no_metadata, ok_or, ◌>>=◌}

pub record DbMetadata : Type 0 where
  pub network : Network
  pub tip_block_hash : ℕ
  pub scanned_height : ℕ

-- The table; `id` is 0 by its check.
abbrev pub MetaTable : Type 0
MetaTable = Option DbMetadata

unfoldable pub load_metada : MetaTable → Result DbMetadata
load_metada table = ok_or table no_metadata

-- On a conflict the network of the row that is there stays.
unfoldable pub store_metadata : DbMetadata → MetaTable → MetaTable
store_metadata meta none = some meta
store_metadata meta (some old) =
    some (record old { tip_block_hash = meta.tip_block_hash; scanned_height = meta.scanned_height })

unfoldable pub has_metadata : MetaTable → Bool
has_metadata none = false
has_metadata (some _) = true

unfoldable pub get_network : MetaTable → Result Network
unfolding load_metada
get_network table = do meta ← load_metada table; ok meta.network

unfoldable pub get_main_tip : MetaTable → Result ℕ
unfolding load_metada
get_main_tip table = do meta ← load_metada table; ok meta.tip_block_hash

unfoldable pub set_best_tip : ℕ → MetaTable → Result MetaTable
unfolding load_metada store_metadata
set_best_tip tip table = do
  meta ← load_metada table
  ok (store_metadata (record meta { tip_block_hash = tip }) table)

unfoldable pub get_scanned_height : MetaTable → Result ℕ
unfolding load_metada
get_scanned_height table = do meta ← load_metada table; ok meta.scanned_height

unfoldable pub set_scanned_height : ℕ → MetaTable → Result MetaTable
unfolding load_metada store_metadata
set_scanned_height height table = do
  meta ← load_metada table
  ok (store_metadata (record meta { scanned_height = height }) table)

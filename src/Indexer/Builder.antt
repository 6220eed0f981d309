-- ===== src/Indexer/Builder.antt =====
-- The builder of the indexer (vault-indexer/src/indexer/mod.rs, `IndexerBuilder`). A lazy setting
-- is its value.
pub mod Fresh
use Prim.Native.String.{String}
use mutinynet_indexer.Common.{ℕ, Bool, false, []}
use mutinynet_indexer.Common.Int.{pos}
use mutinynet_indexer.Cache.Block.{BlockHeader}
use mutinynet_indexer.Cache.Headers.Storage.{load}
use mutinynet_indexer.Db.Setup.{Database, Genesis, initialize_db}
use mutinynet_indexer.Indexer.{Indexer}
use mutinynet_indexer.Indexer.Error.{Result, ok, from_cache, from_database, ◌>>=◌}
use mutinynet_indexer.Network.{Network, bitcoin}

pub record IndexerBuilder : Type 0 where
  pub network : Network
  pub node : String
  pub start_height : ℕ
  pub db_path : String
  pub batch_size : ℕ
  pub rescan : Bool

abbrev pub new : IndexerBuilder
new = record {
  network = bitcoin;
  node = "45.79.52.207:38333";
  start_height = 0;
  db_path = ":memory:";
  batch_size = 500;
  rescan = false;
}

abbrev pub set_network : Network → IndexerBuilder → IndexerBuilder
set_network network s = record s { network = network }

abbrev pub set_node : String → IndexerBuilder → IndexerBuilder
set_node address s = record s { node = address }

abbrev pub set_db : String → IndexerBuilder → IndexerBuilder
set_db path s = record s { db_path = path }

abbrev pub set_batch_size : ℕ → IndexerBuilder → IndexerBuilder
set_batch_size size s = record s { batch_size = size }

abbrev pub set_start_height : ℕ → IndexerBuilder → IndexerBuilder
set_start_height height s = record s { start_height = height }

abbrev pub set_rescan : Bool → IndexerBuilder → IndexerBuilder
set_rescan flag s = record s { rescan = flag }

-- `found` is what is in the database at the path of the builder, which is opened.
unfoldable pub build :
    {H : Type 0} ⦃b : BlockHeader H⦄ ⦃g : Genesis H⦄
    → Database H
    → IndexerBuilder
    → Result (Indexer H)
unfolding initialize_db load
build found s = do
  database ← from_database (initialize_db s.network s.start_height s.rescan found)
  headers_cache ← from_cache (load database.headers database.metadata)
  ok (record {
    network = s.network;
    start_height = s.start_height;
    node_connected = false;
    database = database;
    headers_cache = headers_cache;
    batch_size = s.batch_size;
    remote_height = 0;
    rescan = s.rescan;
    events_bus = [];
    sent = [];
    batch_left = pos 0;
    max_scanned_height = 0;
  })

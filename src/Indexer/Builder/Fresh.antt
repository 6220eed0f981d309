-- ===== src/Indexer/Builder/Fresh.antt =====
-- An indexer that is built on a new database (vault-indexer/src/indexer/mod.rs).
use mutinynet_indexer.Common.{◌≡◌, refl, some, [], false}
use mutinynet_indexer.Common.Int.{pos}
use mutinynet_indexer.Common.Dict.{lookup}
use mutinynet_indexer.Cache.Block.{BlockHeader, block_hash, prev_blockhash, zero_hash}
use mutinynet_indexer.Cache.Headers.Genesis.{genesis_cache, genesis-IsValid}
use mutinynet_indexer.Cache.Headers.Invariant.{IsValid}
use mutinynet_indexer.Db.Setup.{Genesis, empty_database}
use mutinynet_indexer.Db.Setup.Fresh.{
  fresh_database, fresh_metadata, initialize_db-fresh, load-fresh,
}
use mutinynet_indexer.Db.Vault.Invariant.{IsConsistent, volume_of, IsUnused}
use mutinynet_indexer.Indexer.{Indexer}
use mutinynet_indexer.Indexer.Builder.{IndexerBuilder, build}
use mutinynet_indexer.Indexer.Error.{ok}

pub no_vaults-IsConsistent :
    IsConsistent (record { vaults = []; transactions = []; transactions_runes = [] })
unfolding volume_of IsUnused lookup
no_vaults-IsConsistent = record {
  balanced = λ id row found. cc;
  unused = λ id gone. tt;
  last = λ id row found. cc found;
}

module _ {H : Type 0} ⦃b : BlockHeader H⦄ ⦃g : Genesis H⦄ where
  -- What an indexer is like before its first run.
  pub record IsNewborn (builder : IndexerBuilder) (s : Indexer H) : Type 0 where
    pub valid : IsValid s.headers_cache
    pub consistent : IsConsistent s.database.vaults
    pub cache : s.headers_cache ≡ genesis_cache (g.genesis_header builder.network)
    pub metadata :
        s.database.metadata
        ≡ some (
            fresh_metadata builder.network
              (block_hash (g.genesis_header builder.network))
              builder.start_height)
    pub bus : s.events_bus ≡ []

  abbrev pub newborn : IndexerBuilder → Indexer H
  newborn s = record {
    network = s.network;
    start_height = s.start_height;
    node_connected = false;
    database = fresh_database s.network s.start_height;
    headers_cache = genesis_cache (g.genesis_header s.network);
    batch_size = s.batch_size;
    remote_height = 0;
    rescan = s.rescan;
    events_bus = [];
    sent = [];
    batch_left = pos 0;
    max_scanned_height = 0;
  }

  pub build-newborn :
      (builder : IndexerBuilder)
      → prev_blockhash (g.genesis_header builder.network) ≡ zero_hash
      → build empty_database builder ≡ ok (newborn builder)
  unfolding build
  build-newborn builder bottom =
      let loaded = load-fresh {H = H} builder.network builder.start_height bottom in
      rw (initialize_db-fresh builder.network builder.start_height builder.rescan, loaded) refl

  -- On a new database the builder makes an indexer without an error, with or without a rescan, as
  -- long as the genesis header of the network has no parent. Its cache is well formed and holds
  -- the genesis header alone; its vault tables are consistent; and its metadata name the network,
  -- the genesis block as the tip, and the start height as what was scanned.
  pub build-IsNewborn :
      (builder : IndexerBuilder)
      → prev_blockhash (g.genesis_header builder.network) ≡ zero_hash
      → (s : Indexer H) × (build empty_database builder ≡ ok s) × IsNewborn builder s
  build-IsNewborn builder bottom = (
    newborn builder,
    build-newborn builder bottom,
    record {
      valid = genesis-IsValid (g.genesis_header builder.network) bottom;
      consistent = no_vaults-IsConsistent;
      cache = refl;
      metadata = refl;
      bus = refl;
    },
  )

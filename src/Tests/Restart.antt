-- ===== src/Tests/Restart.antt =====
-- An indexer that is built, hears of two blocks, and is built again
-- (vault-indexer/src/indexer/mod.rs).
use mutinynet_indexer.Common.{ℕ, ◌≡◌, refl, true, some, [], ◌∷◌, arith, inl}
use mutinynet_indexer.Common.Dict.{lookup, insert, erase, values}
use mutinynet_indexer.Common.Int.{pos, ◌+ℤ◌, ◌-ℤ◌}
use mutinynet_indexer.Cache.Chain
use mutinynet_indexer.Cache.Error as CacheError
use mutinynet_indexer.Cache.Headers
use mutinynet_indexer.Cache.Headers.{HeadersCache}
use mutinynet_indexer.Cache.Headers.Notes.{elem}
use mutinynet_indexer.Cache.Headers.Storage as Storage
use mutinynet_indexer.Cache.Headers.Storage.Restart.{Restores, load-store}
use mutinynet_indexer.Cache.Headers.Storage.Synced.{IsSynced}
use mutinynet_indexer.Cache.Headers.Sync
use mutinynet_indexer.Db.Header
use mutinynet_indexer.Db.Header.{HeadersTable}
use mutinynet_indexer.Db.Metadata
use mutinynet_indexer.Db.Metadata.{MetaTable}
use native.Mathlib.Decide.{ℕ_discrete}
use mutinynet_indexer.Indexer.{Indexer}
use mutinynet_indexer.Indexer.Builder
use mutinynet_indexer.Indexer.Builder.Fresh.{newborn, build-newborn}
use mutinynet_indexer.Indexer.Error as IndexerError
use mutinynet_indexer.Indexer.Event.{incoming_message, outcoming_message}
use mutinynet_indexer.Indexer.Run as Loop
use mutinynet_indexer.Indexer.Run.Reach.{Reaches, here, next}
use mutinynet_indexer.Indexer.Run.Rebuild.{build-Restores}
use mutinynet_indexer.Network.{bitcoin}
use mutinynet_indexer.P2p.{headers, get_data}
use mutinynet_indexer.P2p.Blockdata as Inventory
use mutinynet_indexer.Tests.Cache.{blocks, block, two_blocks, two_blocks-IsValid}
use mutinynet_indexer.Tests.Indexer.{ordinals, origin, metadata}
use mutinynet_indexer.Tests.Vault.{script}

abbrev first : Indexer ℕ
first = newborn Builder.new

-- The headers of two blocks have come.
abbrev grown : Indexer ℕ
grown = record first {
  headers_cache = record two_blocks { dirty = [] };
  database = record first.database {
    headers = two_blocks.headers;
    metadata = some (record { network = bitcoin; tip_block_hash = 3; scanned_height = 0 });
  };
  remote_height = 2;
  sent = outcoming_message (get_data (Inventory.block 2 ∷ Inventory.block 3 ∷ [])) ∷ [];
  batch_left = pos 2;
}

grown_run : Loop.on_event 1 (incoming_message (headers (1 ∷ 2 ∷ []))) first ≡ IndexerError.ok grown
unfolding blocks origin lookup insert values erase ◌-ℤ◌ ◌+ℤ◌ Loop.on_event Metadata.set_best_tip
    Header.store_raw_headers Headers.get_current_height Header.insert_rows Header.upsert
    Sync.extend_main Sync.process_orphans Headers.store_active Headers.activate_one Headers.write
    Headers.resize Chain.from_headers Chain.headers Chain.len Chain.root_hash Chain.tip_hash
grown_run = refl

grown-Reaches : Reaches 1 first grown
unfolding blocks origin lookup
grown-Reaches =
    next (incoming_message (headers (1 ∷ 2 ∷ []))) here
      ((refl, (refl, tt)), inl (refl, ((λ e. omega (arith, e)), tt), (refl, tt, tt))) grown_run

build-Restores_example :
    (u : Indexer ℕ) × (Builder.build grown.database (record Builder.new { start_height = 7 })
      ≡ IndexerError.ok u)
    × Restores grown.headers_cache u.headers_cache
    × (u.database ≡ grown.database)
unfolding blocks origin
build-Restores_example =
    build-Restores Builder.new (record Builder.new { start_height = 7 }) 1 first grown refl refl
      refl (build-newborn Builder.new refl) grown-Reaches

-- The header of block 2 is in the cache and noted, but not in the table yet.
abbrev ahead : HeadersCache ℕ
ahead = record two_blocks { dirty = 3 ∷ [] }

abbrev behind : HeadersTable ℕ
behind = (2, block 1 1 true) ∷ (1, block 0 0 true) ∷ []

ahead-IsSynced : IsSynced ahead.headers ahead.dirty behind
unfolding blocks elem lookup
ahead-IsSynced = record {
  rows = λ h. ground arith;
  agree = λ h old e. elim (ℕ_discrete 1 h) [
    | yes lowest ↦ (block 0 0 true, ground arith, ground (arith, e), ground (arith, e))
    | no other ↦ (block 1 1 true, ground (arith, e), ground (arith, e), ground (arith, e))
  ];
  noted = λ h on. (block 2 2 true, ground (arith, on));
  hashed = (refl, refl, (refl, refl, tt));
}

load-store_example :
    (table' : HeadersTable ℕ) × (meta' : MetaTable) × (t : HeadersCache ℕ) × (Storage.store ahead
        behind
        (some metadata)
      ≡ CacheError.ok (record ahead { dirty = [] }, table', meta'))
    × (Storage.load table' meta' ≡ CacheError.ok t)
    × Restores ahead t
load-store_example =
    load-store ahead behind metadata
      (record {
        forest = two_blocks-IsValid.forest;
        path = two_blocks-IsValid.path;
        size = refl;
        tip = refl;
      })
      ahead-IsSynced

-- ===== src/Cache/Headers/Storage/Restart.antt =====
-- `store` and then `load` (vault-indexer/src/cache/headers.rs): a cache comes back after a restart.
use mutinynet_indexer.Common.{ℕ, ◌≡◌, refl, sym, ◌∙◌, Option, none, some, [], inl, inr}
use mutinynet_indexer.Common.Dict.{Dict, lookup}
use mutinynet_indexer.Cache.Block.{BlockHeader, prev_blockhash, zero_hash}
use mutinynet_indexer.Cache.Error.{ok}
use mutinynet_indexer.Cache.Headers.{HeadersCache}
use mutinynet_indexer.Cache.Headers.Invariant.{IsForest, Parented, IsValid}
use mutinynet_indexer.Cache.Headers.Notes.{elem}
use mutinynet_indexer.Cache.Headers.Path.{IsPath-frame}
use mutinynet_indexer.Cache.Headers.Storage.{load, store}
use mutinynet_indexer.Cache.Headers.Storage.Fill.{fill_main_chain-restores}
use mutinynet_indexer.Cache.Headers.Storage.Synced.{IsSynced, store_dirty-writes, collect-table}
use mutinynet_indexer.Db.Header.{HeaderRecord, HeadersTable, load_block_headers}
use mutinynet_indexer.Db.Metadata.{
  DbMetadata, MetaTable, load_metada, store_metadata, get_main_tip, set_best_tip,
}

-- The best tip that is stored.
abbrev pub tip_of : MetaTable → Option ℕ
tip_of none = none
tip_of (some m) = some m.tip_block_hash

pub tip_of-eq-some :
    (meta : MetaTable) {tip : ℕ}
    → tip_of meta ≡ some tip
    → (m : DbMetadata) × (meta ≡ some m) × (m.tip_block_hash ≡ tip)
tip_of-eq-some none e = cc
tip_of-eq-some (some m) e = (m, refl, cc)

module _ {H : Type 0} ⦃b : BlockHeader H⦄ where
  -- Both maps have the same records.
  abbrev pub SameRecords : Dict (HeaderRecord H) → Dict (HeaderRecord H) → Type 0
  SameRecords d d' = (h : ℕ) → lookup h d' ≡ lookup h d

  Parented-SameRecords :
      (d d' : Dict (HeaderRecord H)) (r : HeaderRecord H)
      → SameRecords d d'
      → Parented d r
      → Parented d' r
  Parented-SameRecords d d' r same (inl genesis) = inl genesis
  Parented-SameRecords d d' r same (inr (q, found, above)) =
      inr (q, same (prev_blockhash r.header) ∙ found, above)

  IsForest-SameRecords :
      (d d' : Dict (HeaderRecord H)) → SameRecords d d' → IsForest d → IsForest d'
  IsForest-SameRecords d d' same f = record {
    keyed = λ h r found. f.keyed h r (sym (same h) ∙ found);
    parented =
        λ h r found. Parented-SameRecords d d' r same (f.parented h r (sym (same h) ∙ found));
  }

  -- The cache that is loaded is the one that was there, but for its orphans and its notes, and the
  -- order of its records.
  pub record Restores (s t : HeadersCache H) : Type 0 where
    pub headers : SameRecords s.headers t.headers
    pub best_tip : t.best_tip ≡ s.best_tip
    pub height : t.height ≡ s.height
    pub main_chain : t.main_chain ≡ s.main_chain
    pub dirty : t.dirty ≡ []
    pub orphans : t.orphans ≡ []

  -- The table has all of the cache, and the stored tip is its best tip.
  pub record IsSaved (s : HeadersCache H) (table : HeadersTable H) (tip : Option ℕ) : Type 0 where
    pub synced : IsSynced s.headers [] table
    pub tip_stored : tip ≡ some s.best_tip

  pub SameRecords-IsSynced :
      {d : Dict (HeaderRecord H)} (table : HeadersTable H)
      → IsSynced d [] table
      → SameRecords d table
  unfolding elem
  SameRecords-IsSynced table i h = elim (i.rows h) [ inl written ↦ written | inr on ↦ cc ]

  -- What is read from the tables, of a cache that they have all of.
  pub load-Restores :
      (s : HeadersCache H) (table : HeadersTable H) (meta : MetaTable)
      → IsValid s
      → IsSaved s table (tip_of meta)
      → (t : HeadersCache H) × (load table meta ≡ ok t) × IsValid t × Restores s t
  unfolding load load_block_headers get_main_tip load_metada
  load-Restores s table meta v i =
      let same : SameRecords s.headers table = SameRecords-IsSynced table i.synced in
      let (m, found, tip) = tip_of-eq-some meta i.tip_stored in
      let t : HeadersCache H = record s { headers = table; dirty = []; orphans = [] } in
      let w : IsValid t = record {
        forest = IsForest-SameRecords s.headers table same v.forest;
        path =
            IsPath-frame s.headers table zero_hash 0 s.main_chain
              (λ h r stored low flag. same h ∙ stored) v.path;
        size = v.size;
        tip = v.tip;
      } in
      (
        t,
        rw (found, collect-table table i.synced.hashed, tip) (fill_main_chain-restores t w),
        w,
        record {
          headers = same;
          best_tip = refl;
          height = refl;
          main_chain = refl;
          dirty = refl;
          orphans = refl;
        },
      )

  -- A well-formed cache whose changes are noted is written without an error, and all of it.
  pub store-IsSaved :
      (s : HeadersCache H) (table : HeadersTable H) (m : DbMetadata)
      → IsValid s
      → IsSynced s.headers s.dirty table
      → (table' : HeadersTable H) × (meta' : MetaTable) × (store s table (some m)
          ≡ ok (record s { dirty = [] }, table', meta'))
        × IsSaved (record s { dirty = [] }) table' (tip_of meta')
  unfolding store set_best_tip load_metada store_metadata
  store-IsSaved s table m v i =
      let (table', ran, done) = store_dirty-writes s.dirty s table v.forest i in
      (
        table',
        some (record m { tip_block_hash = s.best_tip }),
        rw ran refl,
        record { synced = done; tip_stored = refl },
      )

  -- A well-formed cache, of which the table lacks only what is noted, is stored without an error,
  -- and what is loaded then has its records, its best tip, its height and its main chain.
  pub load-store :
      (s : HeadersCache H) (table : HeadersTable H) (m : DbMetadata)
      → IsValid s
      → IsSynced s.headers s.dirty table
      → (table' : HeadersTable H) × (meta' : MetaTable) × (t : HeadersCache H) × (store s table
            (some m)
          ≡ ok (record s { dirty = [] }, table', meta'))
        × (load table' meta' ≡ ok t)
        × Restores s t
  load-store s table m v i =
      let (table', meta', stored, saved) = store-IsSaved s table m v i in
      let w : IsValid (record s { dirty = [] }) = record {
        forest = v.forest;
        path = v.path;
        size = v.size;
        tip = v.tip;
      } in
      let (t, loaded, valid, r) = load-Restores (record s { dirty = [] }) table' meta' w saved in
      (
        table',
        meta',
        t,
        stored,
        loaded,
        record {
          headers = r.headers;
          best_tip = r.best_tip;
          height = r.height;
          main_chain = r.main_chain;
          dirty = r.dirty;
          orphans = r.orphans;
        },
      )

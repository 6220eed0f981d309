-- ===== src/Indexer/Run/Rebuild.antt =====
-- An indexer that is built on the database of another one (vault-indexer/src/indexer/mod.rs,
-- vault-indexer/src/db/mod.rs).
use mathlib.Core.Path.{subst}
use mutinynet_indexer.Common.{ℕ, ◌≡◌, refl, sym, ap, ◌∙◌, Option, none, some, false, List, inl}
use mutinynet_indexer.Common.Dict.{lookup}
use mutinynet_indexer.Cache.Block.{BlockHeader, block_hash, prev_blockhash, zero_hash}
use mutinynet_indexer.Cache.Error as Cache
use mutinynet_indexer.Cache.Headers.{HeadersCache}
use mutinynet_indexer.Cache.Headers.Genesis.{genesis_record, genesis-found, genesis-IsValid}
use mutinynet_indexer.Cache.Headers.Invariant.{IsValid}
use mutinynet_indexer.Cache.Headers.Keep.{IsStored}
use mutinynet_indexer.Cache.Headers.Notes.{elem}
use mutinynet_indexer.Cache.Headers.Storage as Storage
use mutinynet_indexer.Cache.Headers.Storage.Restart.{Restores, load-Restores, SameRecords-IsSynced}
use mutinynet_indexer.Cache.Headers.Sync.{update_longest_chain}
use mutinynet_indexer.Cache.Headers.Sync.Noted.{update_longest_chain-Notes}
use mutinynet_indexer.Db.Error as Db
use mutinynet_indexer.Db.Header.{HeadersTable}
use mutinynet_indexer.Db.Metadata.{DbMetadata, MetaTable, set_best_tip, load_metada, store_metadata}
use mutinynet_indexer.Db.Setup.{Genesis, initialize_db, reset_scan, empty_database}
use mutinynet_indexer.Db.Setup.Again.{add_genesis-there, check_network-IsFor}
use mutinynet_indexer.Db.Setup.Fresh.{is_same_refl}
use mutinynet_indexer.Indexer.{Indexer}
use mutinynet_indexer.Indexer.Builder.{IndexerBuilder, build}
use mutinynet_indexer.Indexer.Builder.Fresh.{newborn, build-newborn, no_vaults-IsConsistent}
use mutinynet_indexer.Indexer.Error.{ok, ok-injective, from_cache, >>=-eq-ok}
use mutinynet_indexer.Indexer.Handlers.{take_headers}
use mutinynet_indexer.Indexer.Handlers.SameCache.{SameCache, chain_of, network_of}
use mutinynet_indexer.Indexer.Run.Reach.{
  IsInOrder, Reaches, from_cache-eq-ok, IsCarried, Reaches-carries, Reaches-IsInOrder,
}
use mutinynet_indexer.Indexer.Run.Restart.{IsDurable, Reaches-IsDurable}
use mutinynet_indexer.Network.{Network}
use mutinynet_indexer.Vault.Bitcoin.{Script}
use mutinynet_indexer.Vault.Runes.{Ordinals}

network_of-eq-some :
    (meta : MetaTable) {network : Network}
    → network_of meta ≡ some network
    → (m : DbMetadata) × (meta ≡ some m) × (m.network ≡ network)
network_of-eq-some none e = cc
network_of-eq-some (some m) e = (m, refl, cc)

set_best_tip-network_of :
    (tip : ℕ) (meta : MetaTable) {meta' : MetaTable}
    → Storage.from_database (set_best_tip tip meta) ≡ Cache.ok meta'
    → network_of meta' ≡ network_of meta
unfolding set_best_tip load_metada store_metadata
set_best_tip-network_of tip none h = cc
set_best_tip-network_of tip (some m) h = ap (λ t. network_of t) (sym (ok-injective h))

module _ {H : Type 0} ⦃b : BlockHeader H⦄ ⦃g : Genesis H⦄ (network : Network) where
  -- The database was set up for the network: the genesis header is there, and the network's name.
  abbrev SetUp : HeadersCache H × HeadersTable H × Option ℕ × Option Network → Type 0
  SetUp (cache, table, tip, stored) =
      IsStored (block_hash (g.genesis_header network)) cache × (stored ≡ some network)

  abbrev pub IsSetUp : Indexer H → Type 0
  IsSetUp s = SetUp (chain_of s)

  same-IsSetUp : (s t : Indexer H) → IsSetUp s → SameCache s t → IsSetUp t
  same-IsSetUp s t i same = subst SetUp (sym same) i

  store-keeps :
      (c : HeadersCache H) (table : HeadersTable H) (meta : MetaTable)
      {r : HeadersCache H × HeadersTable H × MetaTable}
      → Storage.store c table meta ≡ Cache.ok r
      → (r.0.headers ≡ c.headers) × (network_of r.2 ≡ network_of meta)
  unfolding Storage.store
  store-keeps c table meta h =
      let (table', ran, h') = Cache.>>=-eq-ok (Storage.store_dirty c.dirty c table) _ h in
      let (meta', ran', h'') =
        Cache.>>=-eq-ok (Storage.from_database (set_best_tip c.best_tip meta)) _ h' in
      (
        ap (λ r. r.0.headers) (sym (ok-injective h'')),
        ap (λ r. network_of r.2) (sym (ok-injective h''))
            ∙ set_best_tip-network_of c.best_tip meta ran',
      )

  take_headers-IsSetUp :
      (fuel : ℕ) (hs : List H) (s t : Indexer H)
      → IsSetUp s
      → take_headers fuel hs s ≡ ok t
      → IsSetUp t
  unfolding take_headers
  take_headers-IsSetUp fuel hs s t i h =
      let (c, ran, h') =
        >>=-eq-ok (from_cache (update_longest_chain fuel hs s.headers_cache)) _ h in
      let (r, ran', h'') =
        >>=-eq-ok (from_cache (Storage.store c s.database.headers s.database.metadata)) _ h' in
      let n = update_longest_chain-Notes fuel hs s.headers_cache c (from_cache-eq-ok _ ran) in
      let (genesis, found, header, height) =
        n.kept (block_hash (g.genesis_header network)) i.0.0 i.0.1 in
      let (headers, stored) =
        store-keeps c s.database.headers s.database.metadata (from_cache-eq-ok _ ran') in
      subst (λ t. IsSetUp t) (ok-injective h'')
        (
          (genesis, ap (lookup (block_hash (g.genesis_header network))) headers ∙ found),
          stored ∙ i.1,
        )

  -- Setting up the database of an indexer once more changes nothing.
  initialize_db-IsSetUp :
      (start_height : ℕ) (s : Indexer H)
      → IsDurable s
      → IsSetUp s
      → initialize_db network start_height false s.database ≡ Db.ok s.database
  unfolding initialize_db reset_scan
  initialize_db-IsSetUp start_height s d i =
      let ((r, stored), named) = i in
      let genesis : H = g.genesis_header network in
      let there =
        add_genesis-there genesis s.database.headers
          (SameRecords-IsSynced s.database.headers d.saved.synced (block_hash genesis) ∙ stored) in
      let (m, found, same) = network_of-eq-some s.database.metadata named in
      let for_it =
        check_network-IsFor network (block_hash genesis) start_height s.database.metadata
          (m, found, rw same (is_same_refl network)) in
      rw (there, for_it) refl

IsSetUp-IsCarried :
    {H : Type 0} ⦃b : BlockHeader H⦄ ⦃g : Genesis H⦄ ⦃c : Script⦄ ⦃o : Ordinals⦄ (network : Network)
    → IsCarried {H = H} (λ s. IsSetUp network s)
IsSetUp-IsCarried network = record {
  same = λ s t i same. same-IsSetUp network s t i same;
  take = λ fuel hs s t order e i ran. take_headers-IsSetUp network fuel hs s t i ran;
}

module _ {H : Type 0} ⦃b : BlockHeader H⦄ ⦃g : Genesis H⦄ where
  newborn-IsDurable : (builder : IndexerBuilder) → IsDurable {H = H} (newborn builder)
  unfolding elem lookup
  newborn-IsDurable builder = record {
    saved = record {
      synced = record {
        rows = λ h. inl refl;
        agree = λ h old e. (old, e, refl, refl);
        noted = λ h on. cc;
        hashed = (refl, refl, tt);
      };
      tip_stored = refl;
    };
    clean = refl;
  }

  newborn-IsSetUp : (builder : IndexerBuilder) → IsSetUp {H = H} builder.network (newborn builder)
  newborn-IsSetUp builder = (
    (
      genesis_record (g.genesis_header builder.network),
      genesis-found (g.genesis_header builder.network),
    ),
    refl,
  )

  -- An indexer that is built on the database of another, for the same network and without a rescan.
  rebuild :
      (network : Network) (again : IndexerBuilder) (t : Indexer H)
      → again.network ≡ network
      → again.rescan ≡ false
      → IsValid t.headers_cache
      → IsDurable t
      → IsSetUp network t
      → (u : Indexer H) × (build t.database again ≡ ok u)
        × Restores t.headers_cache u.headers_cache
        × (u.database ≡ t.database)
  unfolding build
  rebuild network again t same no_rescan v d i =
      let opened = initialize_db-IsSetUp network again.start_height t d i in
      let (cache, loaded, valid, restores) =
        load-Restores t.headers_cache t.database.headers t.database.metadata v d.saved in
      let u : Indexer H = record (newborn again) { database = t.database; headers_cache = cache } in
      (u, rw (same, no_rescan, opened, loaded) refl, restores, refl)

  -- An indexer that is built on a new database, and has dealt with any events without an error,
  -- headers coming in order, is followed by another that is built on its database, for the same
  -- network and without a rescan: it is built without an error, has the records, the best tip, the
  -- height and the main chain of the first, and the database as it was.
  pub build-Restores :
      ⦃c : Script⦄ ⦃o : Ordinals⦄ (builder again : IndexerBuilder) (fuel : ℕ) (s t : Indexer H)
      → prev_blockhash (g.genesis_header builder.network) ≡ zero_hash
      → again.network ≡ builder.network
      → again.rescan ≡ false
      → build empty_database builder ≡ ok s
      → Reaches fuel s t
      → (u : Indexer H) × (build t.database again ≡ ok u)
        × Restores t.headers_cache u.headers_cache
        × (u.database ≡ t.database)
  build-Restores builder again fuel s t bottom same no_rescan built reached =
      let first : newborn builder ≡ s = ok-injective (sym (build-newborn builder bottom) ∙ built) in
      let order : IsInOrder s =
        subst (λ s. IsInOrder s) first
          (record {
            valid = genesis-IsValid (g.genesis_header builder.network) bottom;
            consistent = no_vaults-IsConsistent;
          }) in
      let durable : IsDurable s = subst (λ s. IsDurable s) first (newborn-IsDurable builder) in
      let set_up : IsSetUp builder.network s =
        subst (λ s. IsSetUp builder.network s) first (newborn-IsSetUp builder) in
      rebuild builder.network again t same no_rescan
        (Reaches-IsInOrder fuel s t order reached).valid
        (Reaches-IsDurable fuel s t order durable reached)
        (Reaches-carries (IsSetUp-IsCarried builder.network) fuel s t order set_up reached)

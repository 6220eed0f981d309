-- ===== src/Indexer/Run/Restart.antt =====
-- What a new process finds in the database (vault-indexer/src/indexer/mod.rs): the chain as the
-- indexer had it after the last event.
use mathlib.Core.Path.{subst}
use mutinynet_indexer.Common.{ℕ, ◌≡◌, refl, sym, ap, ◌∙◌, Option, none, List, []}
use mutinynet_indexer.Cache.Block.{BlockHeader}
use mutinynet_indexer.Cache.Error as Cache
use mutinynet_indexer.Cache.Headers.{HeadersCache}
use mutinynet_indexer.Cache.Headers.Invariant.{IsValid}
use mutinynet_indexer.Cache.Headers.Storage as Storage
use mutinynet_indexer.Cache.Headers.Storage.Restart.{
  tip_of, tip_of-eq-some, IsSaved, Restores, load-Restores, store-IsSaved,
}
use mutinynet_indexer.Cache.Headers.Storage.Synced.{Notes-IsSynced, IsSynced}
use mutinynet_indexer.Cache.Headers.Sync.{update_longest_chain}
use mutinynet_indexer.Cache.Headers.Sync.Noted.{update_longest_chain-Notes}
use mutinynet_indexer.Db.Header.{HeadersTable}
use mutinynet_indexer.Indexer.{Indexer}
use mutinynet_indexer.Indexer.Error.{ok, ok-injective, from_cache, >>=-eq-ok}
use mutinynet_indexer.Indexer.Handlers.{take_headers}
use mutinynet_indexer.Indexer.Handlers.SameCache.{SameCache}
use mutinynet_indexer.Indexer.Run.Reach.{
  IsOrderly, IsInOrder, Reaches, from_cache-eq-ok, update-IsValid, Reaches-IsInOrder, IsCarried,
  Reaches-carries,
}
use mutinynet_indexer.Network.{Network}
use mutinynet_indexer.Vault.Bitcoin.{Script}
use mutinynet_indexer.Vault.Runes.{Ordinals}

module _ {H : Type 0} ⦃b : BlockHeader H⦄ where
  -- A cache, a table of headers and a stored tip: all of the cache is stored, and it knows so.
  abbrev AllSaved : HeadersCache H × HeadersTable H × Option ℕ × Option Network → Type 0
  AllSaved (cache, table, tip, network) = IsSaved cache table tip × (cache.dirty ≡ [])

  -- The database has the chain of the cache.
  pub record IsDurable (s : Indexer H) : Type 0 where
    pub saved : IsSaved s.headers_cache s.database.headers (tip_of s.database.metadata)
    pub clean : s.headers_cache.dirty ≡ []

  same-IsDurable : (s t : Indexer H) → IsDurable s → SameCache s t → IsDurable t
  same-IsDurable s t d same =
      let (saved, clean) = subst AllSaved (sym same) (d.saved, d.clean) in
      record { saved = saved; clean = clean }

  take_headers-IsDurable :
      (fuel : ℕ) (hs : List H) (s : Indexer H) {t : Indexer H}
      → IsValid s.headers_cache
      → IsOrderly hs s
      → IsDurable s
      → take_headers fuel hs s ≡ ok t
      → IsDurable t
  unfolding take_headers
  take_headers-IsDurable fuel hs s v orderly d h =
      let (c, ran, h') =
        >>=-eq-ok (from_cache (update_longest_chain fuel hs s.headers_cache)) _ h in
      let (r, ran', h'') =
        >>=-eq-ok (from_cache (Storage.store c s.database.headers s.database.metadata)) _ h' in
      let grown = from_cache-eq-ok _ ran in
      let w : IsValid c = update-IsValid fuel hs s v orderly grown in
      let synced : IsSynced c.headers c.dirty s.database.headers =
        Notes-IsSynced s.database.headers
          (update_longest_chain-Notes fuel hs s.headers_cache c grown)
          (rw d.clean d.saved.synced) in
      let (m, found, tip) = tip_of-eq-some s.database.metadata d.saved.tip_stored in
      let (table, meta, stored, saved) = store-IsSaved c s.database.headers m w synced in
      let same : (record c { dirty = [] }, table, meta) ≡ r = ok-injective (
        sym stored
        ∙ ap (Storage.store c s.database.headers) (sym found)
        ∙ from_cache-eq-ok _ ran') in
      let (saved', clean) = subst (λ q. AllSaved (q.0, q.1, tip_of q.2, none)) same (saved, refl) in
      subst (λ t. IsDurable t) (ok-injective h'') (record { saved = saved'; clean = clean })

module _ {H : Type 0} ⦃b : BlockHeader H⦄ ⦃c : Script⦄ ⦃o : Ordinals⦄ where
  IsDurable-IsCarried : IsCarried {H = H} (λ s. IsDurable s)
  IsDurable-IsCarried = record {
    same = same-IsDurable;
    take = λ fuel hs s t i e d ran. take_headers-IsDurable fuel hs s i.valid e d ran;
  }

  pub Reaches-IsDurable :
      (fuel : ℕ) (s t : Indexer H) → IsInOrder s → IsDurable s → Reaches fuel s t → IsDurable t
  Reaches-IsDurable = Reaches-carries IsDurable-IsCarried

  -- From a state that is in order and whose cache is stored, whatever events the indexer deals with
  -- without an error, headers coming in order: the cache that is loaded from the tables it has then
  -- is well formed, and has the records, the best tip, the height and the main chain of its own.
  pub Reaches-Restores :
      (fuel : ℕ) (s t : Indexer H)
      → IsInOrder s
      → IsDurable s
      → Reaches fuel s t
      → (c : HeadersCache H) × (Storage.load t.database.headers t.database.metadata ≡ Cache.ok c)
        × IsValid c
        × Restores t.headers_cache c
  Reaches-Restores fuel s t i d r =
      load-Restores t.headers_cache t.database.headers t.database.metadata
        (Reaches-IsInOrder fuel s t i r).valid (Reaches-IsDurable fuel s t i d r).saved

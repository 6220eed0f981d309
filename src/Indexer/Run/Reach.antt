-- ===== src/Indexer/Run/Reach.antt =====
-- The states that the indexer can come to, one event after another
-- (vault-indexer/src/indexer/mod.rs).
use mathlib.Core.Path.{subst}
use mutinynet_indexer.Common.{ℕ, zero, suc, ◌≡◌, sym, ap, List, [], ◌∷◌, length}
use mutinynet_indexer.Cache.Block.{BlockHeader, prev_blockhash}
use mutinynet_indexer.Cache.Error as Cache
use mutinynet_indexer.Cache.Headers.{HeadersCache}
use mutinynet_indexer.Cache.Headers.Invariant.{IsLinked, IsValid}
use mutinynet_indexer.Cache.Headers.Orphans.{update_longest_chain-IsValid}
use mutinynet_indexer.Cache.Headers.Shelve.{IsTidy}
use mutinynet_indexer.Cache.Headers.Storage as Storage
use mutinynet_indexer.Cache.Headers.Sync.{update_longest_chain}
use mutinynet_indexer.Db.Header.{HeadersTable}
use mutinynet_indexer.Db.Metadata.{MetaTable, set_best_tip}
use mutinynet_indexer.Db.Vault.Invariant.{IsConsistent}
use mutinynet_indexer.Indexer.{Indexer, send}
use mutinynet_indexer.Indexer.Error.{ok, err, ok-injective, from_cache, >>=-eq-ok}
use mutinynet_indexer.Indexer.Event.{Event, handshaked, disconnected, incoming_message}
use mutinynet_indexer.Indexer.Handlers.{take_headers, request_next, on_new_headers}
use mutinynet_indexer.Indexer.Handlers.SameCache.{
  SameCache, same_cache, on_handshake-SameCache, on_new_invs-SameCache, request_next-SameCache,
  on_new_block-SameCache,
}
use mutinynet_indexer.Indexer.Run.{on_message, on_event}
use mutinynet_indexer.Indexer.Run.Announce.{on_event-Announces}
use mutinynet_indexer.P2p.{NetworkMessage, ping, headers, block, inv}
use mutinynet_indexer.Vault.Bitcoin.{Script}
use mutinynet_indexer.Vault.Runes.{Ordinals}

pub from_cache-eq-ok :
    {A : Type 0} (r : Cache.Result A) {a : A} → from_cache r ≡ ok a → r ≡ Cache.ok a
from_cache-eq-ok (err e) h = cc
from_cache-eq-ok (ok a) h = ap Cache.ok (ok-injective h)

module _ {H : Type 0} ⦃b : BlockHeader H⦄ where
  -- The headers of a message are linked, and either all of them are new or there is only one.
  abbrev pub IsOrderly : List H → Indexer H → Type 0
  IsOrderly [] s = Unit {0}
  IsOrderly (first ∷ rest) s =
      IsLinked (prev_blockhash first) (first ∷ rest) × IsTidy s.headers_cache.headers (first ∷ rest)

  -- What is expected of an event: headers come in order.
  abbrev pub IsExpected : Event H → Indexer H → Type 0
  IsExpected (incoming_message (headers hs)) s = IsOrderly hs s
  IsExpected _ s = Unit {0}

  store-IsValid :
      (c : HeadersCache H) (table : HeadersTable H) (meta : MetaTable)
      {r : HeadersCache H × HeadersTable H × MetaTable}
      → IsValid c
      → Storage.store c table meta ≡ Cache.ok r
      → IsValid r.0
  unfolding Storage.store
  store-IsValid c table meta v h =
      let (table', ran, h') = Cache.>>=-eq-ok (Storage.store_dirty c.dirty c table) _ h in
      let (meta', ran', h'') =
        Cache.>>=-eq-ok (Storage.from_database (set_best_tip c.best_tip meta)) _ h' in
      let w : IsValid (record c { dirty = [] }) = record {
        forest = v.forest;
        path = v.path;
        size = v.size;
        tip = v.tip;
      } in
      subst (λ r. IsValid r.0) (ok-injective h'') w

  pub update-IsValid :
      (fuel : ℕ) (hs : List H) (s : Indexer H) {c : HeadersCache H}
      → IsValid s.headers_cache
      → IsOrderly hs s
      → update_longest_chain fuel hs s.headers_cache ≡ Cache.ok c
      → IsValid c
  unfolding update_longest_chain
  update-IsValid zero [] s v orderly h = cc
  update-IsValid (suc fuel) [] s v orderly h = subst IsValid (ok-injective h) v
  update-IsValid fuel (first ∷ rest) s v orderly h =
      update_longest_chain-IsValid fuel first rest s.headers_cache _ v orderly.0 orderly.1 h

  take_headers-IsValid :
      (fuel : ℕ) (hs : List H) (s : Indexer H) {t : Indexer H}
      → IsValid s.headers_cache
      → IsOrderly hs s
      → take_headers fuel hs s ≡ ok t
      → IsValid t.headers_cache
  unfolding take_headers
  take_headers-IsValid fuel hs s v orderly h =
      let (c, ran, h') =
        >>=-eq-ok (from_cache (update_longest_chain fuel hs s.headers_cache)) _ h in
      let (r, ran', h'') =
        >>=-eq-ok (from_cache (Storage.store c s.database.headers s.database.metadata)) _ h' in
      let w : IsValid c = update-IsValid fuel hs s v orderly (from_cache-eq-ok _ ran) in
      subst (λ t. IsValid t.headers_cache) (ok-injective h'')
        (store-IsValid c s.database.headers s.database.metadata w (from_cache-eq-ok _ ran'))

  -- The cache and the vault tables are in order.
  pub record IsInOrder (s : Indexer H) : Type 0 where
    pub valid : IsValid s.headers_cache
    pub consistent : IsConsistent s.database.vaults

  same-IsValid :
      (s t : Indexer H) → IsValid s.headers_cache → SameCache s t → IsValid t.headers_cache
  same-IsValid s t v same = subst IsValid (ap (λ q. q.0) (sym same)) v

module _ {H : Type 0} ⦃b : BlockHeader H⦄ ⦃c : Script⦄ ⦃o : Ordinals⦄ where
  -- A property that the chain alone decides, and that taking in headers keeps.
  pub record IsCarried (P : Indexer H → Type 0) : Type 0 where
    pub same : (s t : Indexer H) → P s → SameCache s t → P t
    pub take :
        (fuel : ℕ) (hs : List H) (s t : Indexer H)
        → IsInOrder s
        → IsOrderly hs s
        → P s
        → take_headers fuel hs s ≡ ok t
        → P t

  on_message-carries :
      {P : Indexer H → Type 0} (carried : IsCarried P) (fuel : ℕ) (msg : NetworkMessage H)
      (s t : Indexer H)
      → IsInOrder s
      → IsExpected (incoming_message msg) s
      → P s
      → on_message fuel msg s ≡ ok t
      → P t
  unfolding on_message on_new_headers send
  on_message-carries k fuel (ping nonce) s t i e p h = k.same s t p (same_cache _ h)
  on_message-carries k fuel (headers hs) s t i e p h =
      let (u, ran, rest) = >>=-eq-ok (take_headers fuel hs s) (request_next (length hs)) h in
      k.same u t (k.take fuel hs s u i e p ran) (request_next-SameCache (length hs) u rest)
  on_message-carries k fuel (block arrived) s t i e p h =
      k.same s t p (on_new_block-SameCache arrived s i.consistent h)
  on_message-carries k fuel (inv invs) s t i e p h = k.same s t p (on_new_invs-SameCache invs s h)
  on_message-carries k fuel _ s t i e p h = k.same s t p (same_cache s h)

  on_event-carries :
      {P : Indexer H → Type 0} (carried : IsCarried P) (fuel : ℕ) (event : Event H)
      (s t : Indexer H)
      → IsInOrder s
      → IsExpected event s
      → P s
      → on_event fuel event s ≡ ok t
      → P t
  unfolding on_event
  on_event-carries k fuel (handshaked height) s t i e p h =
      k.same s t p (on_handshake-SameCache height s h)
  on_event-carries k fuel disconnected s t i e p h = k.same s t p (same_cache _ h)
  on_event-carries k fuel (incoming_message msg) s t i e p h =
      on_message-carries k fuel msg s t i e p h
  on_event-carries k fuel _ s t i e p h = k.same s t p (same_cache s h)

  IsValid-IsCarried : IsCarried (λ s. IsValid s.headers_cache)
  IsValid-IsCarried = record {
    same = same-IsValid;
    take = λ fuel hs s t i e v ran. take_headers-IsValid fuel hs s v e ran;
  }

  on_event-IsInOrder :
      (fuel : ℕ) (event : Event H) (s t : Indexer H)
      → IsInOrder s
      → IsExpected event s
      → on_event fuel event s ≡ ok t
      → IsInOrder t
  on_event-IsInOrder fuel event s t i e h =
      let (es, bus, scan) = on_event-Announces fuel event s t i.consistent h in
      record {
        valid = on_event-carries IsValid-IsCarried fuel event s t i e i.valid h;
        consistent = scan.consistent;
      }

  -- What the indexer has come to from a state by events that it dealt with without an error.
  pub data Reaches (fuel : ℕ) (s : Indexer H) : Indexer H → Type 0 where
    here : Reaches fuel s s
    next :
        {t u : Indexer H} (event : Event H)
        → Reaches fuel s t
        → IsExpected event t
        → on_event fuel event t ≡ ok u
        → Reaches fuel s u

  -- In every state that the indexer comes to from one in which its cache of headers is well formed
  -- and its vault tables are consistent, by events that are each dealt with without an error and
  -- of which each message of headers is linked and has only new headers or a single one, the cache
  -- is well formed and the vault tables are consistent.
  pub Reaches-IsInOrder :
      (fuel : ℕ) (s t : Indexer H) → IsInOrder s → Reaches fuel s t → IsInOrder t
  Reaches-IsInOrder fuel s t i here = i
  Reaches-IsInOrder fuel s t i (next {t = u} event before expected ran) =
      on_event-IsInOrder fuel event u t (Reaches-IsInOrder fuel s u i before) expected ran

  pub Reaches-carries :
      {P : Indexer H → Type 0} (carried : IsCarried P) (fuel : ℕ) (s t : Indexer H)
      → IsInOrder s
      → P s
      → Reaches fuel s t
      → P t
  Reaches-carries k fuel s t i p here = p
  Reaches-carries k fuel s t i p (next {t = u} event before expected ran) =
      on_event-carries k fuel event u t (Reaches-IsInOrder fuel s u i before) expected
        (Reaches-carries k fuel s u i p before) ran

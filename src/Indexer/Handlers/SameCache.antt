-- ===== src/Indexer/Handlers/SameCache.antt =====
-- The requests leave the cache of headers alone (vault-indexer/src/indexer/mod.rs).
use mutinynet_indexer.Common.{
  ℕ, ◌≡◌, sym, ap, ◌∙◌, true, Option, none, some, List, [], ◌∷◌, ltb, ◌==◌, inl, inr,
}
use mutinynet_indexer.Common.Outcome.{if-either}
use mutinynet_indexer.Common.Int.{pos, leb_ℤ}
use mutinynet_indexer.Cache.Block.{BlockHeader, block_hash}
use mutinynet_indexer.Cache.Error as Cache
use mutinynet_indexer.Cache.Headers.{HeadersCache, get_header, get_current_height}
use mutinynet_indexer.Cache.Headers.Storage.Restart.{tip_of}
use mutinynet_indexer.Cache.Headers.Requests.{make_get_blocks}
use mutinynet_indexer.Db.Header.{HeaderRecord, HeadersTable}
use mutinynet_indexer.Db.Metadata.{
  MetaTable, load_metada, store_metadata, set_scanned_height, get_scanned_height,
}
use mutinynet_indexer.Db.Vault.Invariant.{IsConsistent}
use mutinynet_indexer.Indexer.{Indexer, send}
use mutinynet_indexer.Indexer.Blocks.{process_block}
use mutinynet_indexer.Indexer.Blocks.Rows.{scanned}
use mutinynet_indexer.Indexer.Blocks.Scan.{process_block-Scans}
use mutinynet_indexer.Indexer.Error.{
  Result, ok, err, ok-injective, from_cache, from_database, >>=-eq-ok,
}
use mutinynet_indexer.Indexer.Handlers.{
  request_headers, request_blocks, request_next, on_handshake, on_new_invs, on_new_block,
  ask_unknown, count_block, finish_batch, max_headers_per_msg,
}
use mutinynet_indexer.Indexer.Handlers.Quiet.{request_headers-sends, if-cases, first_blocks}
use mutinynet_indexer.Network.{Network}
use mutinynet_indexer.P2p.{Block}
use mutinynet_indexer.P2p.Blockdata as Inventory
use mutinynet_indexer.P2p.Blockdata.{Inventory as Entry}
use mutinynet_indexer.Vault.Bitcoin.{Script}
use mutinynet_indexer.Vault.Runes.{Ordinals}

-- The network that is stored.
abbrev pub network_of : MetaTable → Option Network
network_of none = none
network_of (some m) = some m.network

abbrev kept_of : MetaTable → Option ℕ × Option Network
kept_of table = (tip_of table, network_of table)

scanned_height-kept_of :
    (height : ℕ) (table : MetaTable) {table' : MetaTable}
    → from_database (set_scanned_height height table) ≡ ok table'
    → kept_of table' ≡ kept_of table
unfolding set_scanned_height load_metada store_metadata
scanned_height-kept_of height none h = cc
scanned_height-kept_of height (some m) h = ap (λ t. kept_of t) (sym (ok-injective h))

module _ {H : Type 0} where
  -- The cache of headers, and what is stored of it: the table of headers, the best tip and the
  -- network.
  abbrev pub chain_of : Indexer H → HeadersCache H × HeadersTable H × Option ℕ × Option Network
  chain_of s = (
    s.headers_cache,
    s.database.headers,
    tip_of s.database.metadata,
    network_of s.database.metadata,
  )

  -- The cache is the same, and what is stored of it.
  abbrev pub SameCache : Indexer H → Indexer H → Type 0
  SameCache s t = chain_of t ≡ chain_of s

  pub same_cache :
      (s : Indexer H) {t : Indexer H} → ◌≡◌ {A = Result (Indexer H)} (ok s) (ok t) → SameCache s t
  same_cache s h = ap (λ (q : Indexer H). chain_of q) (sym (ok-injective h))

  request_headers-SameCache :
      (s : Indexer H) {t : Indexer H} → request_headers s ≡ ok t → SameCache s t
  unfolding send
  request_headers-SameCache s h =
      ap (λ (q : Indexer H). chain_of q) (sym (request_headers-sends s h).1)

  request_blocks-SameCache :
      (scanned : ℕ) (s : Indexer H) {t : Indexer H}
      → request_blocks scanned s ≡ ok t
      → SameCache s t
  unfolding request_blocks send
  request_blocks-SameCache scanned s h =
      let (msg, ran, last) =
        >>=-eq-ok (from_cache (make_get_blocks _ s.batch_size s.headers_cache)) _ h in
      ap (λ (q : Indexer H). chain_of q) (sym (ok-injective last))

  pub on_handshake-SameCache :
      (height : ℕ) (s : Indexer H) {t : Indexer H} → on_handshake height s ≡ ok t → SameCache s t
  unfolding on_handshake
  on_handshake-SameCache height s h =
      request_headers-SameCache (record s { node_connected = true; remote_height = height }) h

  ask_unknown-SameCache :
      (r : Cache.Result (HeaderRecord H)) (s : Indexer H) {t : Indexer H}
      → ask_unknown r s ≡ ok t
      → SameCache s t
  unfolding ask_unknown
  ask_unknown-SameCache (err _) s h = request_headers-SameCache s h
  ask_unknown-SameCache (ok _) s h = same_cache s h

  pub on_new_invs-SameCache :
      (invs : List Entry) (s : Indexer H) {t : Indexer H}
      → on_new_invs invs s ≡ ok t
      → SameCache s t
  unfolding on_new_invs
  on_new_invs-SameCache [] s h = same_cache s h
  on_new_invs-SameCache (Inventory.other ∷ invs) s h = on_new_invs-SameCache invs s h
  on_new_invs-SameCache (Inventory.block hash ∷ invs) s h =
      let (u, ran, rest) =
        >>=-eq-ok (ask_unknown (get_header hash s.headers_cache) s) (on_new_invs invs) h in
      on_new_invs-SameCache invs u rest
      ∙ ask_unknown-SameCache (get_header hash s.headers_cache) s ran

  pub request_next-SameCache :
      (count : ℕ) (s : Indexer H) {t : Indexer H} → request_next count s ≡ ok t → SameCache s t
  unfolding request_next
  request_next-SameCache count s h =
      elim (if-cases (count == max_headers_per_msg) (leb_ℤ s.batch_left (pos 0)) (request_headers s)
        (first_blocks s) (ok s) h) [
          | inl full ↦ request_headers-SameCache s full
          | inr (inl blocks) ↦
              (let (scanned, ran, rest) =
                  >>=-eq-ok (from_database (get_scanned_height s.database.metadata))
                    (λ scanned. request_blocks scanned s) blocks.1 in
                request_blocks-SameCache scanned s rest)
          | inr (inr nothing) ↦ same_cache s nothing
        ]

  finish_batch-SameCache : (s : Indexer H) {t : Indexer H} → finish_batch s ≡ ok t → SameCache s t
  unfolding finish_batch
  finish_batch-SameCache s h =
      let (metadata, ran, rest) =
        >>=-eq-ok (from_database (set_scanned_height s.max_scanned_height s.database.metadata)) _
          h in
      let s' : Indexer H = record s { database = record s.database { metadata = metadata } } in
      let noted : SameCache s s' =
        ap (λ kept. (s.headers_cache, s.database.headers, kept.0, kept.1))
          (scanned_height-kept_of s.max_scanned_height s.database.metadata ran) in
      elim (if-either (ltb s.max_scanned_height (get_current_height s.headers_cache))
        (request_blocks s.max_scanned_height s') (ok s') rest) [
          | inl asks ↦ request_blocks-SameCache s.max_scanned_height s' asks ∙ noted
          | inr done ↦ same_cache s' done ∙ noted
        ]

  pub on_new_block-SameCache :
      ⦃b : BlockHeader H⦄ ⦃c : Script⦄ ⦃o : Ordinals⦄ (arrived : Block H) (s : Indexer H)
      {t : Indexer H}
      → IsConsistent s.database.vaults
      → on_new_block arrived s ≡ ok t
      → SameCache s t
  unfolding on_new_block count_block
  on_new_block-SameCache arrived s k h =
      let (r, ran, h') =
        >>=-eq-ok (from_cache (get_header (block_hash arrived.header) s.headers_cache)) _ h in
      let (processed, ran', h'') = >>=-eq-ok (process_block arrived r.height s) _ h' in
      let (db, events, run, scan) = process_block-Scans arrived r.height s k in
      let same : scanned db events s ≡ processed = ok-injective (sym run ∙ ran') in
      let counted : Indexer H = count_block r.height processed in
      elim (if-either (leb_ℤ counted.batch_left (pos 0)) (finish_batch counted) (ok counted) h'') [
        | inl ends ↦
            finish_batch-SameCache counted ends ∙ ap (λ (q : Indexer H). chain_of q) (sym same)
        | inr goes_on ↦ same_cache counted goes_on ∙ ap (λ (q : Indexer H). chain_of q) (sym same)
      ]

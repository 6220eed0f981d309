-- ===== src/Indexer/Handlers.antt =====
-- The reactions to the messages of the node (vault-indexer/src/indexer/mod.rs).
pub mod Request
pub mod Quiet
pub mod SameCache
pub mod Invs
use mutinynet_indexer.Common.{
  ℕ, ◌+◌, ◌-◌, ◌%◌, ◌^◌, Bool, true, false, List, [], ◌∷◌, length, min, max, ltb, ◌==◌,
  if◌then◌else◌,
}
use mutinynet_indexer.Common.Int.{ℤ, pos, ◌+ℤ◌, ◌-ℤ◌, leb_ℤ}
use mutinynet_indexer.Cache.Block.{BlockHeader, block_hash}
use mutinynet_indexer.Cache.Error as Cache
use mutinynet_indexer.Cache.Headers.{HeadersCache, get_header, get_current_height}
use mutinynet_indexer.Cache.Headers.Requests.{make_get_headers, make_get_blocks}
use mutinynet_indexer.Cache.Headers.Storage.{store}
use mutinynet_indexer.Cache.Headers.Sync.{update_longest_chain}
use mutinynet_indexer.Db.Metadata.{get_scanned_height, set_scanned_height}
use mutinynet_indexer.Indexer.{Indexer, send}
use mutinynet_indexer.Indexer.Blocks.{process_block}
use mutinynet_indexer.Db.Header.{HeaderRecord}
use mutinynet_indexer.Indexer.Error.{Result, ok, err, from_cache, from_database, ◌>>=◌}
use mutinynet_indexer.Indexer.Event.{outcoming_message}
use mutinynet_indexer.P2p.{Block, get_headers}
use mutinynet_indexer.P2p.Blockdata.{Inventory}
use mutinynet_indexer.P2p.Blockdata as Inventory
use mutinynet_indexer.Vault.Bitcoin.{Script}
use mutinynet_indexer.Vault.Runes.{Ordinals}

-- `MAX_HEADERS_PER_MSG` of the node module
abbrev pub max_headers_per_msg : ℕ
max_headers_per_msg = 2000

-- The subtraction of two `u32`, which a release build wraps.
abbrev pub sub_u32 : ℕ → ℕ → ℕ
sub_u32 a b = (a + 2 ^ 32 - b) % 2 ^ 32

module _ {H : Type 0} where
  unfoldable pub request_headers : Indexer H → Result (Indexer H)
  unfolding make_get_headers send
  request_headers s = do
    headers_msg ← from_cache (make_get_headers s.headers_cache)
    ok (send (outcoming_message (get_headers headers_msg)) s)

  unfoldable pub on_handshake : ℕ → Indexer H → Result (Indexer H)
  unfolding request_headers
  on_handshake remote_height s =
      request_headers (record s { node_connected = true; remote_height = remote_height })

  -- The blocks above `scanned_height` are asked for, and are counted in.
  unfoldable pub request_blocks : ℕ → Indexer H → Result (Indexer H)
  unfolding make_get_blocks send
  request_blocks scanned_height s = do
    let height = get_current_height s.headers_cache
    msg ← from_cache (make_get_blocks ((scanned_height + 1) % 2 ^ 32) s.batch_size s.headers_cache)
    let actual_batch = min s.batch_size (sub_u32 height scanned_height)
    ok (record (send (outcoming_message msg) s) { batch_left = s.batch_left +ℤ pos actual_batch })

  -- The headers are taken into the cache and into the database.
  unfoldable pub take_headers : ⦃b : BlockHeader H⦄ → ℕ → List H → Indexer H → Result (Indexer H)
  unfolding update_longest_chain store
  take_headers fuel headers s = do
    cache ← from_cache (update_longest_chain fuel headers s.headers_cache)
    (cache', table, metadata) ← from_cache (store cache s.database.headers s.database.metadata)
    let current_height = get_current_height cache'
    ok (record s {
      headers_cache = cache';
      database = record s.database { headers = table; metadata = metadata };
      remote_height =
          if ltb s.remote_height current_height then current_height else s.remote_height;
    })

  -- What is asked for next: more headers, or the first blocks, or nothing.
  unfoldable pub request_next : ℕ → Indexer H → Result (Indexer H)
  unfolding request_headers request_blocks get_scanned_height
  request_next count s =
      let blocks = (do
        scanned_height ← from_database (get_scanned_height s.database.metadata)
        request_blocks scanned_height s) in
      if count == max_headers_per_msg
      then request_headers s
      else if leb_ℤ s.batch_left (pos 0)
      then blocks
      else ok s

  unfoldable pub on_new_headers : ⦃b : BlockHeader H⦄ → ℕ → List H → Indexer H → Result (Indexer H)
  unfolding take_headers request_next
  on_new_headers fuel headers s = do
    s' ← take_headers fuel headers s
    request_next (length headers) s'

  -- The end of a batch: it is written down how far the scan is, and the next batch is asked for.
  unfoldable pub finish_batch : Indexer H → Result (Indexer H)
  unfolding set_scanned_height request_blocks
  finish_batch s = do
    let scanned_height = s.max_scanned_height
    metadata ← from_database (set_scanned_height scanned_height s.database.metadata)
    let s' = record s { database = record s.database { metadata = metadata } }
    let rest = request_blocks scanned_height s'
    if ltb scanned_height (get_current_height s.headers_cache) then rest else ok s'

  -- A block that was scanned counts.
  unfoldable pub count_block : ℕ → Indexer H → Indexer H
  count_block height s = record s {
    batch_left = s.batch_left -ℤ pos 1;
    max_scanned_height = max s.max_scanned_height height;
  }

  unfoldable pub on_new_block :
      ⦃b : BlockHeader H⦄ ⦃c : Script⦄ ⦃o : Ordinals⦄ → Block H → Indexer H → Result (Indexer H)
  unfolding process_block count_block finish_batch get_header
  on_new_block block s = do
    r ← from_cache (get_header (block_hash block.header) s.headers_cache)
    processed ← process_block block r.height s
    let s' = count_block r.height processed
    if leb_ℤ s'.batch_left (pos 0) then finish_batch s' else ok s'

  -- The question after a block that is not known.
  unfoldable pub ask_unknown : Cache.Result (HeaderRecord H) → Indexer H → Result (Indexer H)
  unfolding request_headers
  ask_unknown (err _) s = request_headers s
  ask_unknown (ok _) s = ok s

  unfoldable pub on_new_invs : List Inventory → Indexer H → Result (Indexer H)
  unfolding ask_unknown get_header
  on_new_invs [] s = ok s
  on_new_invs (Inventory.block hash ∷ invs) s = do
    s' ← ask_unknown (get_header hash s.headers_cache) s
    on_new_invs invs s'
  on_new_invs (Inventory.other ∷ invs) s = on_new_invs invs s

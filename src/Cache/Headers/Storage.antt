-- ===== src/Cache/Headers/Storage.antt =====
-- Reading the cache from the database and writing it back
-- (vault-indexer/src/cache/headers.rs).
pub mod Fill
pub mod Synced
pub mod Restart
use mutinynet_indexer.Common.{
  ℕ, zero, suc, ◌+◌, Bool, true, false, List, [], ◌∷◌, ◌==◌, if◌then◌else◌,
}
use mutinynet_indexer.Common.Dict.{Dict, lookup, insert}
use mutinynet_indexer.Cache.Block.{BlockHeader, block_hash, prev_blockhash, zero_hash}
use mutinynet_indexer.Cache.Error.{
  Result, ok, err, missing_header, database, panic, out_of_fuel, ok_or, guard, ◌>>=◌,
}
use mutinynet_indexer.Cache.Headers.{HeadersCache, get_header, resize, write}
use mutinynet_indexer.Db.Error.{Result as DbResult}
use mutinynet_indexer.Db.Header.{HeaderRecord, HeadersTable, load_block_headers, store_raw_headers}
use mutinynet_indexer.Db.Metadata.{MetaTable, get_main_tip, set_best_tip}

-- The question mark operator on a result of the database.
abbrev pub from_database : {A : Type 0} → DbResult A → Result A
from_database (err e) = err (database e)
from_database (ok a) = ok a

module _ {H : Type 0} ⦃b : BlockHeader H⦄ where
  -- The loop of `fill_main_chain`: a round for each height, down to genesis.
  unfoldable pub fill_loop : ℕ → Dict (HeaderRecord H) → HeaderRecord H → List ℕ → Result (List ℕ)
  unfolding write
  fill_loop zero headers current main_chain = err out_of_fuel
  fill_loop (suc fuel) headers current main_chain = do
    filled ← write current.height (block_hash current.header) main_chain
    let rest = do
      next ←
          ok_or (lookup (prev_blockhash current.header) headers)
            (missing_header (prev_blockhash current.header))
      _ ← guard (current.height == next.height + 1) panic
      fill_loop fuel headers next filled
    if current.height == 0 then ok filled else rest

  unfoldable pub fill_main_chain : HeadersCache H → Result (HeadersCache H)
  unfolding fill_loop get_header resize
  fill_main_chain s = do
    tip_record ← get_header s.best_tip s
    main_chain ←
        fill_loop (tip_record.height + 1) s.headers tip_record
          (resize (tip_record.height + 1) zero_hash s.main_chain)
    ok (record s { height = tip_record.height; main_chain = main_chain })

  unfoldable pub collect : List (HeaderRecord H) → Dict (HeaderRecord H) → Dict (HeaderRecord H)
  collect [] headers = headers
  collect (r ∷ rs) headers = collect rs (insert (block_hash r.header) r headers)

  unfoldable pub load : HeadersTable H → MetaTable → Result (HeadersCache H)
  unfolding collect fill_main_chain
  load table meta = do
    let headers = collect (load_block_headers table) []
    best_tip ← from_database (get_main_tip meta)
    fill_main_chain (record {
      headers = headers;
      best_tip = best_tip;
      height = 0;
      main_chain = [];
      dirty = [];
      orphans = [];
    })

  -- The loop of `store`, a statement for each hash.
  unfoldable pub store_dirty : List ℕ → HeadersCache H → HeadersTable H → Result (HeadersTable H)
  store_dirty [] s table = ok table
  store_dirty (hash ∷ hashes) s table = do
    r ← ok_or (lookup hash s.headers) (missing_header hash)
    store_dirty hashes s (store_raw_headers (r ∷ []) table)

  unfoldable pub store :
      HeadersCache H
      → HeadersTable H
      → MetaTable
      → Result (HeadersCache H × HeadersTable H × MetaTable)
  unfolding store_dirty
  store s table meta = do
    table' ← store_dirty s.dirty s table
    meta' ← from_database (set_best_tip s.best_tip meta)
    ok (record s { dirty = [] }, table', meta')

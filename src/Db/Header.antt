-- ===== src/Db/Header.antt =====
-- The table of headers (vault-indexer/src/db/header.rs): rows keyed by the block hash.
pub mod Batches
use mutinynet_indexer.Common.{
  ℕ, zero, suc, ◌+◌, Bool, false, Option, none, some, List, [], ◌∷◌, length, take, drop, ltb,
  if◌then◌else◌,
}
use mutinynet_indexer.Common.Dict.{Dict, lookup, insert, values}
use mutinynet_indexer.Cache.Block.{BlockHeader, block_hash, prev_blockhash}
use mutinynet_indexer.Db.Error.{Result, ok, orphan_block, ok_or, ◌>>=◌}

pub record HeaderRecord (H : Type 0) : Type 0 where
  pub header : H
  pub height : ℕ
  pub in_longest : Bool

abbrev pub HeadersTable : Type 0 → Type 0
HeadersTable H = Dict (HeaderRecord H)

abbrev pub batch_size : ℕ
batch_size = 500

module _ {H : Type 0} ⦃b : BlockHeader H⦄ where
  unfoldable pub load_block_header : ℕ → HeadersTable H → Option (HeaderRecord H)
  load_block_header hash table = lookup hash table

  -- The rows that `load_block_headers` hands to its closure.
  unfoldable pub load_block_headers : HeadersTable H → List (HeaderRecord H)
  load_block_headers table = values table

  -- `INSERT … ON CONFLICT(block_hash) DO UPDATE SET in_longest = excluded.in_longest`: of a row
  -- that is there only the flag is written.
  unfoldable pub upsert : HeaderRecord H → HeadersTable H → HeadersTable H
  upsert r table = elim (lookup (block_hash r.header) table) [
    | none ↦ insert (block_hash r.header) r table
    | some old ↦ insert (block_hash r.header) (record old { in_longest = r.in_longest }) table
  ]

  -- One statement inserts its rows in turn.
  unfoldable pub insert_rows : List (HeaderRecord H) → HeadersTable H → HeadersTable H
  insert_rows [] table = table
  insert_rows (r ∷ rs) table = insert_rows rs (upsert r table)

  -- The batches of one call, on fuel: the rows that are left.
  unfoldable pub store_batches : ℕ → List (HeaderRecord H) → HeadersTable H → HeadersTable H
  store_batches zero rs table = table
  store_batches (suc fuel) rs table =
      let rest = store_batches fuel (drop batch_size rs) (insert_rows (take batch_size rs) table) in
      if ltb 0 (length rs) then rest else table

  unfoldable pub store_raw_headers : List (HeaderRecord H) → HeadersTable H → HeadersTable H
  unfolding store_batches
  store_raw_headers rs = store_batches (length rs) rs

  -- Store a header whose parent is there, not marked as on the longest chain.
  unfoldable pub store_block_header : H → HeadersTable H → Result (HeadersTable H)
  unfolding load_block_header store_raw_headers
  store_block_header header table = do
    parent ←
        ok_or (load_block_header (prev_blockhash header) table)
          (orphan_block (block_hash header) (prev_blockhash header))
    ok (
        store_raw_headers
          (record { header = header; height = parent.height + 1; in_longest = false } ∷ []) table)

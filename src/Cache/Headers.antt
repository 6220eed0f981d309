-- ===== src/Cache/Headers.antt =====
-- `HeadersCache` (vault-indexer/src/cache/headers.rs): the headers that are known, the main chain
-- by height, the hashes to write out, and the headers whose parent is not known. A method returns
-- the new cache or an error. A cache that a failing method has half written is not kept: the
-- indexer stops on every error of the cache. Heights are plain numbers: 2 ^ 32 headers do not fit
-- into the memory that the cache lives in.
pub mod Sync
pub mod Invariant
pub mod Genesis
pub mod Path
pub mod Forest
pub mod Activate
pub mod Grow
pub mod Walk
pub mod MainWalk
pub mod Clear
pub mod Reorg
pub mod Shelve
pub mod Outcomes
pub mod Fork
pub mod Update
pub mod Orphans
pub mod Notes
pub mod Keep
pub mod Stuck
pub mod NoOrphan
pub mod Requests
pub mod Storage
use mathlib.Core.List.{filter}
use mutinynet_indexer.Common.{
  ℕ, zero, suc, ◌+◌, ◌-◌, Bool, true, false, Option, none, some, List, [], ◌∷◌, ◌++◌, length,
  get_elem?, set, take, replicate, ltb, ◌==◌, if◌then◌else◌,
}
use mutinynet_indexer.Common.Dict.{Dict, lookup, insert, erase, contains}
use mutinynet_indexer.Cache.Block.{BlockHeader, block_hash, prev_blockhash, zero_hash}
use mutinynet_indexer.Cache.Error.{
  Result, ok, err, missing_header, missing_header_height, panic, out_of_fuel, ok_or, ◌>>=◌,
}
use mutinynet_indexer.Cache.Chain
use mutinynet_indexer.Cache.Chain.{HeaderChain}
use mutinynet_indexer.Db.Header.{HeaderRecord}

pub record HeadersCache (H : Type 0) : Type 0 where
  pub headers : Dict (HeaderRecord H)
  pub best_tip : ℕ
  pub height : ℕ
  pub main_chain : List ℕ
  pub dirty : List ℕ
  pub orphans : Dict H

-- `Vec::resize` and `Vec::truncate`
unfoldable pub resize {ℓ} : {A : Type ℓ} → ℕ → A → List A → List A
resize n v xs = take n xs ++ replicate (n - length xs) v

unfoldable pub truncate {ℓ} : {A : Type ℓ} → ℕ → List A → List A
truncate n xs = take n xs

-- `v[i] = x`, which panics out of range
unfoldable pub write {ℓ} : {A : Type ℓ} → ℕ → A → List A → Result (List A)
write i x xs = if ltb i (length xs) then ok (set xs i x) else err panic

module _ {H : Type 0} where
  -- A header in the cache, on the main chain or not.
  unfoldable pub get_header : ℕ → HeadersCache H → Result (HeaderRecord H)
  get_header hash s = ok_or (lookup hash s.headers) (missing_header hash)

  unfoldable pub get_blockhash_at : ℕ → HeadersCache H → Option ℕ
  get_blockhash_at height s = get_elem? s.main_chain height

  unfoldable pub get_current_height : HeadersCache H → ℕ
  get_current_height s = s.height

module _ {H : Type 0} ⦃b : BlockHeader H⦄ where
  -- The loop of `get_chain_until`, from `cur` down to the first parent that passes the test.
  unfoldable pub walk :
      ℕ
      → (HeaderRecord H → Bool)
      → Dict (HeaderRecord H)
      → HeaderRecord H
      → HeaderChain H
      → Result (HeaderChain H)
  walk zero pred table cur chain = err out_of_fuel
  walk (suc fuel) pred table cur chain = do
    next ←
        ok_or (lookup (prev_blockhash cur.header) table)
          (missing_header (prev_blockhash cur.header))
    let rest = do chain' ← Chain.push_root next.header chain; walk fuel pred table next chain'
    if pred next then ok chain else rest

  -- A step goes to a parent, whose height is one less: a round for each height is enough.
  unfoldable pub get_chain_until :
      ℕ → (HeaderRecord H → Bool) → HeadersCache H → Result (HeaderChain H)
  unfolding walk
  get_chain_until tip pred s = do
    cur ← ok_or (lookup tip s.headers) (missing_header tip)
    let chain = Chain.new cur.header
    if pred cur then ok chain else walk (cur.height + 1) pred s.headers cur chain

  -- The loop of `inactivate`.
  unfoldable pub clear_flags : List H → HeadersCache H → Result (HeadersCache H)
  clear_flags [] s = ok s
  clear_flags (header ∷ rest) s = do
    let hash = block_hash header
    r ← ok_or (lookup hash s.headers) (missing_header hash)
    clear_flags rest (record s {
      headers = insert hash (record r { in_longest = false }) s.headers;
      dirty = s.dirty ++ (hash ∷ []);
    })

  -- `headers().skip(1)`
  abbrev pub skip_root : HeaderChain H → List H
  skip_root chain = elim (Chain.headers chain) [ [] ↦ [] | _ ∷ rest ↦ rest ]

  -- Mark all headers of the chain but its root as inactive, and cut the main chain at the root.
  unfoldable pub inactivate : HeaderChain H → HeadersCache H → Result (HeadersCache H)
  unfolding clear_flags get_header
  inactivate chain s = do
    s' ← clear_flags (skip_root chain) s
    root ← get_header (Chain.root_hash chain) s'
    ok (record s' {
      best_tip = block_hash root.header;
      height = root.height;
      main_chain = truncate root.height s'.main_chain;
    })

  -- One round of the loop of `store_active`: the record of the header, and the cache.
  unfoldable pub activate_one :
      H → HeaderRecord H → HeadersCache H → Result (HeaderRecord H × HeadersCache H)
  activate_one header prev_record s =
      let hash = block_hash header in
      elim (lookup hash s.headers) [
        | none ↦ (do
          let new_record : HeaderRecord H = record {
            header = header;
            height = prev_record.height + 1;
            in_longest = true;
          }
          main_chain ← write new_record.height hash s.main_chain
          ok (
            new_record,
            record s {
              headers = insert hash new_record s.headers;
              main_chain = main_chain;
              orphans = erase hash s.orphans;
              dirty = s.dirty ++ (hash ∷ []);
            },
          ))
        | some old ↦ (do
          let header_record : HeaderRecord H = record old { in_longest = true }
          main_chain ← write old.height hash s.main_chain
          ok (
            header_record,
            record s {
              headers = insert hash header_record s.headers;
              main_chain = main_chain;
              dirty = s.dirty ++ (hash ∷ []);
            },
          ))
      ]

  unfoldable pub activate : List H → HeaderRecord H → HeadersCache H → Result (HeadersCache H)
  activate [] prev_record s = ok s
  activate (header ∷ rest) prev_record s = do
    (r, s') ← activate_one header prev_record s
    activate rest r s'

  -- Store the headers of the chain as the main chain from the root of the chain on.
  unfoldable pub store_active : HeaderChain H → HeadersCache H → Result (HeadersCache H)
  unfolding activate
  store_active chain s = do
    let root_hash = Chain.root_hash chain
    prev_record ← ok_or (lookup root_hash s.headers) (missing_header root_hash)
    let new_height = prev_record.height + Chain.len chain - 1
    s' ←
        activate (Chain.headers chain) prev_record
          (record s { main_chain = resize (new_height + 1) zero_hash s.main_chain })
    ok (record s' { best_tip = Chain.tip_hash chain; height = new_height })

  -- One round of the loop of `store_inactive`: a header that is known is passed over.
  unfoldable pub shelve_one : H → HeaderRecord H → HeadersCache H → HeaderRecord H × HeadersCache H
  shelve_one header prev_record s =
      let hash = block_hash header in
      elim (lookup hash s.headers) [
        | none ↦
            (let new_record : HeaderRecord H = record {
              header = header;
              height = prev_record.height + 1;
              in_longest = false;
            } in
              (
                new_record,
                record s {
                  headers = insert hash new_record s.headers;
                  orphans = erase hash s.orphans;
                  dirty = s.dirty ++ (hash ∷ []);
                },
              ))
        | some _ ↦ (prev_record, s)
      ]

  unfoldable pub shelve : List H → HeaderRecord H → HeadersCache H → HeadersCache H
  shelve [] prev_record s = s
  shelve (header ∷ rest) prev_record s =
      let (r, s') = shelve_one header prev_record s in shelve rest r s'

  -- Store the headers of the chain beside the main chain.
  unfoldable pub store_inactive : HeaderChain H → HeadersCache H → Result (HeadersCache H)
  unfolding shelve
  store_inactive chain s = do
    let root_hash = Chain.root_hash chain
    prev_record ← ok_or (lookup root_hash s.headers) (missing_header root_hash)
    ok (shelve (Chain.headers chain) prev_record s)

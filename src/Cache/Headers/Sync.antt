-- ===== src/Cache/Headers/Sync.antt =====
-- `update_longest_chain` and `process_orphans` (vault-indexer/src/cache/headers.rs): headers that
-- arrive extend the main chain, replace a part of it, are kept beside it, or wait for a parent.
pub mod Noted
use mutinynet_indexer.Common.{ℕ, zero, suc, List, [], ◌∷◌, ltb, ◌==◌, if◌then◌else◌}
use mutinynet_indexer.Common.Dict.{Dict, insert, erase, contains, values}
use mutinynet_indexer.Cache.Block.{BlockHeader, block_hash, prev_blockhash}
use mutinynet_indexer.Cache.Error.{Result, ok, err, out_of_fuel, ◌>>=◌}
use mutinynet_indexer.Cache.Chain
use mutinynet_indexer.Cache.Headers.{
  HeadersCache, get_header, get_chain_until, inactivate, store_active, store_inactive,
}
use mutinynet_indexer.Db.Header.{HeaderRecord}

module _ {H : Type 0} ⦃b : BlockHeader H⦄ where
  -- The branch for headers that continue the best tip.
  unfoldable pub extend_main : List H → HeadersCache H → Result (HeadersCache H)
  unfolding get_header
  extend_main headers s = do
    tip_record ← get_header s.best_tip s
    store_active (Chain.from_headers tip_record.header headers) s

  -- The branch for headers that continue another known header.
  unfoldable pub join_fork : H → List H → HeadersCache H → Result (HeadersCache H)
  join_fork first rest s = do
    base ← get_chain_until (prev_blockhash first) (λ r. r.in_longest) s
    new_chain ← Chain.extend_tip (first ∷ rest) base
    main_chain ←
        get_chain_until s.best_tip (λ r. block_hash r.header == Chain.root_hash new_chain) s
    if ltb (Chain.total_work main_chain) (Chain.total_work new_chain)
        then (do s' ← inactivate main_chain s; store_active new_chain s')
        else store_inactive new_chain s

  -- The branch for headers whose parent is not known: all are put aside.
  unfoldable pub stash : List H → HeadersCache H → HeadersCache H
  stash [] s = s
  stash (h ∷ hs) s = stash hs (record s { orphans = insert (block_hash h) h s.orphans })

  -- The orphans whose parent is known by now.
  unfoldable pub adoptable : Dict (HeaderRecord H) → List H → List H
  adoptable table [] = []
  adoptable table (o ∷ os) =
      let rest = adoptable table os in if contains (prev_blockhash o) table then o ∷ rest else rest

  unfoldable pub adopt :
      (List H → HeadersCache H → Result (HeadersCache H))
      → List H
      → HeadersCache H
      → Result (HeadersCache H)
  adopt update [] s = ok s
  adopt update (o ∷ os) s = do s' ← update (o ∷ []) s; adopt update os s'

  unfoldable pub remove_orphans : List H → HeadersCache H → HeadersCache H
  remove_orphans [] s = s
  remove_orphans (o ∷ os) s =
      remove_orphans os (record s { orphans = erase (block_hash o) s.orphans })

  -- `update` is the call of `update_longest_chain` for one orphan.
  unfoldable pub process_orphans :
      (List H → HeadersCache H → Result (HeadersCache H)) → HeadersCache H → Result (HeadersCache H)
  unfolding adoptable adopt remove_orphans
  process_orphans update s = do
    let adopted = adoptable s.headers (values s.orphans)
    s' ← adopt update adopted s
    ok (remove_orphans adopted s')

  -- The fuel bounds how deep the two methods call one another.
  unfoldable pub update_longest_chain : ℕ → List H → HeadersCache H → Result (HeadersCache H)
  update_longest_chain zero headers s = err out_of_fuel
  update_longest_chain (suc fuel) [] s = ok s
  update_longest_chain (suc fuel) (first ∷ rest) s =
      let retry = process_orphans (update_longest_chain fuel) in
      if s.best_tip == prev_blockhash first
      then extend_main (first ∷ rest) s >>= retry
      else if contains (prev_blockhash first) s.headers
      then join_fork first rest s >>= retry
      else ok (stash (first ∷ rest) s)

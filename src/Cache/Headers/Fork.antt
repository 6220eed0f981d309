-- ===== src/Cache/Headers/Fork.antt =====
-- `update_longest_chain` (vault-indexer/src/cache/headers.rs) on headers that do not continue the
-- best tip: a reorganization, a fork that is kept aside, and forks that are refused.
use mathlib.Core.Path.{subst}
use mutinynet_indexer.Common.{
  ℕ, suc, ◌+◌, ◌≤◌, ◌<◌, ◌≡◌, ◌≢◌, refl, ap, ◌∙◌, sym, true, false, some, List, ◌∷◌, ◌++◌, map,
  arith, length, take, drop, last_or, ltb, lt→ltb, ge→ltb, if◌then◌else◌, ◌==◌,
}
use mutinynet_indexer.Common.Dict.{lookup}
use mutinynet_indexer.Cache.Block.{BlockHeader, block_hash, prev_blockhash, work, zero_hash}
use mutinynet_indexer.Cache.Error.{ok, err, missing_header, >>=-eq-ok, ◌>>=◌}
use mutinynet_indexer.Cache.Chain
use mutinynet_indexer.Cache.Chain.{HeaderChain}
use mutinynet_indexer.Cache.Chain.Refines.{
  sum_work, extend_tip-new, total_work-eq-sum, headers-extend_tip,
}
use mutinynet_indexer.Cache.Headers.{
  HeadersCache, get_chain_until, inactivate, store_active, store_inactive,
}
use mutinynet_indexer.Cache.Headers.Sync.{join_fork}
use mutinynet_indexer.Cache.Headers.Invariant.{IsPath, IsLinked, IsValid}
use mutinynet_indexer.Cache.Headers.Path.{IsPath-drop}
use mutinynet_indexer.Cache.Headers.MainWalk.{
  main_walk-found, main_walk-missing, get_chain_until-root, unmarked-off,
}
use mutinynet_indexer.Cache.Headers.Reorg.{IsOnMain, inactivate-EndsAt}
use mutinynet_indexer.Cache.Headers.Shelve.{
  IsTidy, AreStored, Shelved-IsValid, store_inactive-Shelved,
}
use mutinynet_indexer.Cache.Headers.Outcomes.{grow_from, stored_work, stored_work-path}
use mutinynet_indexer.Db.Header.{HeaderRecord}

module _ {H : Type 0} ⦃b : BlockHeader H⦄ where
  -- The part of the main chain above an index weighs what its stored headers do.
  main_part-work :
      (s : HeadersCache H) (k : ℕ) (m : HeaderChain H)
      → IsValid s
      → k < s.height
      → map block_hash (Chain.headers m) ≡ drop (suc k) s.main_chain
      → Chain.total_work m ≡ stored_work s.headers (drop (suc k) s.main_chain)
  main_part-work s k m v lt e =
      let w : IsPath s.headers (last_or zero_hash (take (suc k) s.main_chain)) (suc k)
          (map block_hash (Chain.headers m)) =
        subst (IsPath s.headers (last_or zero_hash (take (suc k) s.main_chain)) (suc k)) (sym e) (
          IsPath-drop s.headers zero_hash 0 s.main_chain (suc k) (suc k) (omega arith)
            (omega (arith, v.size)) v.path) in
      total_work-eq-sum m
      ∙ sym (
          stored_work-path s.headers (last_or zero_hash (take (suc k) s.main_chain)) (suc k)
            (Chain.headers m) v.forest w)
      ∙ ap (stored_work s.headers) e

  -- On a marked parent the fork begins at that parent.
  pub fork_base :
      (s : HeadersCache H) (p : HeaderRecord H)
      → lookup (block_hash p.header) s.headers ≡ some p
      → p.in_longest ≡ true
      → get_chain_until (block_hash p.header) (λ r. r.in_longest) s ≡ ok (Chain.new p.header)
  unfolding get_chain_until
  fork_base s p found flag = rw (found, flag) refl

  module _ (s : HeadersCache H) (k : ℕ) (p : HeaderRecord H) (first : H) (rest : List H)
      (v : IsValid s) (on : IsOnMain s k p) (lt : k < s.height)
      (linked : IsLinked (block_hash p.header) (first ∷ rest)) where
    abbrev fork : HeaderChain H
    fork = Chain.from_headers p.header (first ∷ rest)

    fork-work : Chain.total_work fork ≡ work p.header + sum_work (first ∷ rest)
    unfolding Chain.from_headers Chain.headers
    fork-work = total_work-eq-sum fork

    -- Once the walks are made, the two works decide.
    join_fork-choice :
        (m : HeaderChain H)
        → get_chain_until s.best_tip (λ r. block_hash r.header == block_hash p.header) s ≡ ok m
        → join_fork first rest s ≡ (
            if ltb (Chain.total_work m) (Chain.total_work fork)
            then (inactivate m s >>= λ s'. store_active fork s')
            else store_inactive fork s)
    unfolding join_fork Chain.root_hash Chain.from_headers
    join_fork-choice m walked =
        rw
          (
            linked.0,
            fork_base s p on.stored on.flagged,
            extend_tip-new p.header first rest (sym linked.0),
            walked,
          )
          refl

    -- A fork from the index `k` of the main chain replaces what is above it, where the header at
    -- `k` and the fork together have more work than what is replaced.
    pub join_fork-heavier :
        stored_work s.headers (drop (suc k) s.main_chain) < work p.header + sum_work (first ∷ rest)
        → (s' : HeadersCache H) × (join_fork first rest s ≡ ok s')
          × IsValid s'
          × (s'.main_chain ≡ take (suc k) s.main_chain ++ map block_hash (first ∷ rest))
          × (s'.best_tip ≡ block_hash (last_or first rest))
          × (s'.height ≡ k + length (first ∷ rest))
    join_fork-heavier heavy =
        let (m, walked, hashes) = main_walk-found s k (block_hash p.header) v on.at lt in
        let more : ltb (Chain.total_work m) (Chain.total_work fork) ≡ true =
          lt→ltb (Chain.total_work m) (Chain.total_work fork)
            (omega (arith, fork-work, main_part-work s k m v lt hashes)) in
        let (s₁, cut, e, chain, orphans) = inactivate-EndsAt s k p m v on lt hashes in
        let (s', ran, g) = grow_from p (first ∷ rest) s₁ e linked in
        (
          s',
          join_fork-choice m walked ∙ rw (more, cut) ran,
          g.valid,
          rw (← chain) g.main_chain,
          g.best_tip,
          omega (arith, g.height, on.height),
        )

    -- A fork of no more work than the part of the main chain above its parent is stored: each of
    -- its headers has a record afterwards, every record that was there stays as it was, and so do
    -- the main chain, the best tip and the height.
    pub join_fork-lighter :
        IsTidy s.headers (first ∷ rest)
        → work p.header + sum_work (first ∷ rest)
          ≤ stored_work s.headers (drop (suc k) s.main_chain)
        → (s' : HeadersCache H) × (join_fork first rest s ≡ ok s')
          × IsValid s'
          × AreStored s'.headers (first ∷ rest)
          × ((h : ℕ) (r : HeaderRecord H)
              → lookup h s.headers ≡ some r
              → lookup h s'.headers ≡ some r)
          × (s'.main_chain ≡ s.main_chain)
          × (s'.best_tip ≡ s.best_tip)
          × (s'.height ≡ s.height)
    join_fork-lighter tidy light =
        let (m, walked, hashes) = main_walk-found s k (block_hash p.header) v on.at lt in
        let less : ltb (Chain.total_work m) (Chain.total_work fork) ≡ false =
          ge→ltb (Chain.total_work m) (Chain.total_work fork)
            (omega (arith, fork-work, main_part-work s k m v lt hashes)) in
        let (s', ran, c, stored) =
          store_inactive-Shelved (first ∷ rest) p s v.forest on.stored linked tidy in
        (
          s',
          join_fork-choice m walked ∙ rw less ran,
          Shelved-IsValid s s' v c,
          stored,
          c.kept,
          c.main_chain,
          c.best_tip,
          c.height,
        )

  -- A fork that continues a header off the main chain is never taken in.
  pub join_fork-off_main :
      (s : HeadersCache H) (first : H) (rest : List H) (q : HeaderRecord H)
      → IsValid s
      → lookup (prev_blockhash first) s.headers ≡ some q
      → q.in_longest ≡ false
      → (s' : HeadersCache H) → join_fork first rest s ≢ ok s'
  unfolding join_fork Chain.root_hash
  join_fork-off_main s first rest q v found off s' e =
      let (base, walked, e₁) =
        >>=-eq-ok (get_chain_until (prev_blockhash first) (λ r. r.in_longest) s) _ e in
      let (fork, extended, e₂) = >>=-eq-ok (Chain.extend_tip (first ∷ rest) base) _ e₁ in
      let (r, stored, unmarked) =
        get_chain_until-root (prev_blockhash first) s q v.forest found off walked in
      let same : fork.root ≡ base.root = (headers-extend_tip (first ∷ rest) base extended).1 in
      let missing : get_chain_until s.best_tip (λ r. block_hash r.header == block_hash fork.root) s
          ≡ err (missing_header zero_hash) =
        main_walk-missing s (block_hash fork.root) v
          (unmarked-off s (block_hash fork.root) r v (rw same stored) unmarked) in
      let (m, got, e₃) =
        >>=-eq-ok (get_chain_until s.best_tip (λ r. block_hash r.header == block_hash fork.root) s)
          _ e₂ in
      cc

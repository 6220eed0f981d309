-- ===== src/Cache/Headers/MainWalk.antt =====
-- The walks that `update_longest_chain` makes (vault-indexer/src/cache/headers.rs) in a well-formed
-- cache: down the main chain, and from a fork to the first header that is marked.
use mutinynet_indexer.Common.{
  ℕ, zero, suc, ◌+◌, ◌<◌, ◌≡◌, ◌≢◌, refl, ap, ◌∙◌, Bool-cases, true, false, inl, inr, some, map,
  arith, get_elem?, drop, drop-eq-cons, drop-all, ◌==◌,
}
use mutinynet_indexer.Common.Dict.{Dict, lookup}
use mutinynet_indexer.Cache.Block.{BlockHeader, block_hash, prev_blockhash, zero_hash}
use mutinynet_indexer.Cache.Error.{ok, err, missing_header, ok_or, >>=-eq-ok}
use mutinynet_indexer.Cache.Chain
use mutinynet_indexer.Cache.Chain.{HeaderChain, push_root}
use mutinynet_indexer.Cache.Chain.Refines.{headers-push_root, headers-new}
use mutinynet_indexer.Cache.Headers.{HeadersCache, walk, get_chain_until}
use mutinynet_indexer.Cache.Headers.Invariant.{IsForest, IsValid}
use mutinynet_indexer.Cache.Headers.Path.{path-entry}
use mutinynet_indexer.Cache.Headers.Walk.{
  IsWalking, main_chain-injective, walk-found, walk-missing, ==_false,
}
use mutinynet_indexer.Db.Header.{HeaderRecord}

module _ {H : Type 0} ⦃b : BlockHeader H⦄ where
  -- The record of the best tip, ready for the walk down the main chain.
  pub tip_record :
      (s : HeadersCache H)
      → IsValid s
      → (cur : HeaderRecord H) × (lookup s.best_tip s.headers ≡ some cur)
        × (block_hash cur.header ≡ s.best_tip)
        × (cur.height ≡ s.height)
        × (cur.in_longest ≡ true)
        × IsWalking s.headers s.main_chain s.height cur (Chain.new cur.header)
  unfolding Chain.new
  tip_record s v =
      let (cur, found, height, flag) =
        path-entry s.headers zero_hash 0 s.main_chain s.height v.path v.tip in
      let key : block_hash cur.header ≡ s.best_tip = v.forest.keyed s.best_tip cur found in
      (
        cur,
        found,
        key,
        omega arith,
        flag,
        record {
          forest = v.forest;
          path = v.path;
          stored = rw key found;
          at = rw key v.tip;
          root = refl;
          hashes =
              ap (map block_hash) (headers-new cur.header)
              ∙ rw
                  (
                    drop-eq-cons s.height s.main_chain v.tip,
                    drop-all (suc s.height) s.main_chain (omega (arith, v.size)),
                    key,
                  )
                  refl;
        },
      )

  -- Down from the best tip to an entry of the main chain below it.
  pub main_walk-found :
      (s : HeadersCache H) (k x : ℕ)
      → IsValid s
      → get_elem? s.main_chain k ≡ some x
      → k < s.height
      → (chain : HeaderChain H) × (get_chain_until s.best_tip (λ r. block_hash r.header == x) s
          ≡ ok chain)
        × (map block_hash (Chain.headers chain) ≡ drop (suc k) s.main_chain)
  unfolding get_chain_until
  main_walk-found s k x v e lt =
      let (cur, found, key, height, flag, w) = tip_record s v in
      let ne : block_hash cur.header ≢ x = λ eq.
        let same : s.height ≡ k =
          main_chain-injective s.headers s.main_chain s.height k v.path (w.at ∙ ap some eq) e in
        omega arith in
      let (chain, ran, hashes) =
        walk-found s.height k x (cur.height + 1) s.headers s.main_chain cur (Chain.new cur.header) w
          e lt (omega arith) in
      (chain, rw (found, ==_false (block_hash cur.header) x ne) ran, hashes)

  -- Down from the best tip for a hash that is not on the main chain.
  pub main_walk-missing :
      (s : HeadersCache H) (x : ℕ)
      → IsValid s
      → ((k : ℕ) → get_elem? s.main_chain k ≢ some x)
      → get_chain_until s.best_tip (λ r. block_hash r.header == x) s
        ≡ err (missing_header zero_hash)
  unfolding get_chain_until
  main_walk-missing s x v off =
      let (cur, found, key, height, flag, w) = tip_record s v in
      let ne : block_hash cur.header ≢ x = λ eq. off s.height (w.at ∙ ap some eq) in
      rw (found, ==_false (block_hash cur.header) x ne)
        (walk-missing s.height x (cur.height + 1) s.headers s.main_chain cur (Chain.new cur.header)
          w off (omega arith))

  -- A record that is not marked is not on the main chain.
  pub unmarked-off :
      (s : HeadersCache H) (x : ℕ) (r : HeaderRecord H)
      → IsValid s
      → lookup x s.headers ≡ some r
      → r.in_longest ≡ false
      → (k : ℕ) → get_elem? s.main_chain k ≢ some x
  unmarked-off s x r v found off k e =
      let (q, found', height, flag) = path-entry s.headers zero_hash 0 s.main_chain k v.path e in
      ground arith

  -- From a record that is not marked, the walk to a marked one ends on a root that is not marked.
  walk-root :
      (fuel : ℕ) (d : Dict (HeaderRecord H)) (cur : HeaderRecord H) (chain : HeaderChain H)
      {chain' : HeaderChain H}
      → IsForest d
      → chain.root ≡ cur.header
      → lookup (block_hash cur.header) d ≡ some cur
      → cur.in_longest ≡ false
      → walk fuel (λ r. r.in_longest) d cur chain ≡ ok chain'
      → (r : HeaderRecord H) × (lookup (Chain.root_hash chain') d ≡ some r) × (r.in_longest ≡ false)
  unfolding walk Chain.root_hash
  walk-root zero d cur chain f root stored off e = cc
  walk-root (suc fuel) d cur chain {chain'} f root stored off e =
      let (next, found, e₁) =
        >>=-eq-ok
          (ok_or (lookup (prev_blockhash cur.header) d)
            (missing_header (prev_blockhash cur.header)))
          _ e in
      let found' : lookup (prev_blockhash cur.header) d ≡ some next = ground arith in
      elim (Bool-cases next.in_longest) [
        | inl stop ↦
            (let same : chain ≡ chain' = cc (rw stop at e₁) in (cur, rw (← same, root) stored, off))
        | inr on ↦
            (let (c, pushed, e₂) =
                >>=-eq-ok (push_root next.header chain) (walk fuel (λ r. r.in_longest) d next)
                  (rw on at e₁) in
              let key : block_hash next.header ≡ prev_blockhash cur.header =
                f.keyed (prev_blockhash cur.header) next found' in
              walk-root fuel d next c f (headers-push_root next.header chain pushed).1
                (rw key found') on e₂)
      ]

  -- A fork that begins at an unmarked record ends on an unmarked root.
  pub get_chain_until-root :
      (tip : ℕ) (s : HeadersCache H) (cur : HeaderRecord H) {chain : HeaderChain H}
      → IsForest s.headers
      → lookup tip s.headers ≡ some cur
      → cur.in_longest ≡ false
      → get_chain_until tip (λ r. r.in_longest) s ≡ ok chain
      → (r : HeaderRecord H) × (lookup (Chain.root_hash chain) s.headers ≡ some r)
        × (r.in_longest ≡ false)
  unfolding get_chain_until
  get_chain_until-root tip s cur {chain} f found off e =
      let ran : walk (cur.height + 1) (λ r. r.in_longest) s.headers cur (Chain.new cur.header)
          ≡ ok chain =
        ground arith in
      walk-root (cur.height + 1) s.headers cur (Chain.new cur.header) f (unfold Chain.new in refl)
        (rw (f.keyed tip cur found) found) off ran

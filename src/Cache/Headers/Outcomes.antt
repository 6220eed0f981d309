-- ===== src/Cache/Headers/Outcomes.antt =====
-- What the branches of `update_longest_chain` (vault-indexer/src/cache/headers.rs) do to a
-- well-formed cache.
use mutinynet_indexer.Common.{
  ℕ, suc, ◌+◌, ◌≡◌, refl, ap, none, some, List, [], ◌∷◌, ◌++◌, map, arith, length, get_elem?-last,
}
use mutinynet_indexer.Common.Dict.{Dict, lookup}
use mutinynet_indexer.Cache.Block.{BlockHeader, block_hash, work, zero_hash}
use mutinynet_indexer.Cache.Error.{ok}
use mutinynet_indexer.Cache.Chain
use mutinynet_indexer.Cache.Chain.{HeaderChain}
use mutinynet_indexer.Cache.Chain.Refines.{sum_work, tip_hash-eq-last}
use mutinynet_indexer.Cache.Headers.{HeadersCache, store_active}
use mutinynet_indexer.Cache.Headers.Sync.{extend_main}
use mutinynet_indexer.Cache.Headers.Invariant.{IsForest, IsPath, IsLinked, IsValid}
use mutinynet_indexer.Cache.Headers.Grow.{EndsAt, GrownBy, store_active-GrownBy}
use mutinynet_indexer.Cache.Headers.MainWalk.{tip_record}
use mutinynet_indexer.Db.Header.{HeaderRecord}

module _ {H : Type 0} ⦃b : BlockHeader H⦄ where
  -- The main chain of a well-formed cache ends at the record of its best tip.
  tip-EndsAt :
      (s : HeadersCache H)
      → IsValid s
      → (p : HeaderRecord H) × (lookup s.best_tip s.headers ≡ some p)
        × (block_hash p.header ≡ s.best_tip)
        × (p.height ≡ s.height)
        × EndsAt s p
  tip-EndsAt s v =
      let (p, found, key, height, flag, w) = tip_record s v in
      (
        p,
        found,
        key,
        height,
        record {
          forest = v.forest;
          stored = w.stored;
          flagged = flag;
          path = v.path;
          size = omega (arith, v.size);
          last = cc (get_elem?-last zero_hash s.main_chain s.height v.size, v.tip, key);
        },
      )

  -- The facts of `store_active` about the chain that `from_headers` builds.
  pub grow_from :
      (p : HeaderRecord H) (hs : List H) (s : HeadersCache H)
      → EndsAt s p
      → IsLinked (block_hash p.header) hs
      → (s' : HeadersCache H) × (store_active (Chain.from_headers p.header hs) s ≡ ok s')
        × GrownBy s s' p hs
  unfolding Chain.from_headers Chain.headers Chain.root_hash
  grow_from p hs s e linked =
      store_active-GrownBy p hs (Chain.from_headers p.header hs) s e refl refl
        (tip_hash-eq-last (Chain.from_headers p.header hs) refl) linked

  -- Linked headers on top of the best tip are appended to the main chain.
  pub extend_main-appends :
      (hs : List H) (s : HeadersCache H)
      → IsValid s
      → IsLinked s.best_tip hs
      → (s' : HeadersCache H) × (extend_main hs s ≡ ok s')
        × IsValid s'
        × (s'.main_chain ≡ s.main_chain ++ map block_hash hs)
        × (s'.height ≡ s.height + length hs)
  unfolding extend_main
  extend_main-appends hs s v linked =
      let (p, found, key, height, e) = tip-EndsAt s v in
      let (s', ran, g) = grow_from p hs s e (rw key linked) in
      (s', rw found ran, g.valid, g.main_chain, omega (arith, g.height))

  -- The work of stored headers.
  unfoldable pub stored_work : Dict (HeaderRecord H) → List ℕ → ℕ
  stored_work d [] = 0
  stored_work d (x ∷ xs) =
      elim (lookup x d) [ none ↦ 0 | some r ↦ work r.header ] + stored_work d xs

  pub stored_work-path :
      (d : Dict (HeaderRecord H)) (p n : ℕ) (hs : List H)
      → IsForest d
      → IsPath d p n (map block_hash hs)
      → stored_work d (map block_hash hs) ≡ sum_work hs
  unfolding stored_work
  stored_work-path d p n [] f w = refl
  stored_work-path d p n (h ∷ hs) f w =
      let (r, found, height, up, flag) = w.0 in
      let same : r.header ≡ h = b.hash_injective r.header h (f.keyed (block_hash h) r found) in
      rw (found, same)
        (ap (λ (n : ℕ). work h + n) (stored_work-path d (block_hash h) (suc n) hs f w.1))

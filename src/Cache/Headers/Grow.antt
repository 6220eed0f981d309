-- ===== src/Cache/Headers/Grow.antt =====
-- `store_active` (vault-indexer/src/cache/headers.rs) on a chain whose root is the last entry of
-- the main chain: the main chain grows by the other headers.
use mathlib.Core.List.{append-nil}
use mutinynet_indexer.Common.{
  ℕ, suc, ◌+◌, ◌-◌, ◌<◌, ◌≡◌, refl, ap, ◌∙◌, true, some, List, [], ◌∷◌, ◌++◌, map, arith, length,
  length-append, length-map, length-replicate, replicate, take-all, get_elem?, get_elem?-last,
  get_elem?-append_left, last_or, last_or-append, last_or-map, set_self, lt→ltb,
}
use mutinynet_indexer.Common.Dict.{lookup, insert_self}
use mutinynet_indexer.Cache.Block.{BlockHeader, block_hash, zero_hash}
use mutinynet_indexer.Cache.Error.{ok}
use mutinynet_indexer.Cache.Chain
use mutinynet_indexer.Cache.Chain.{HeaderChain}
use mutinynet_indexer.Cache.Chain.Refines.{len-eq-length}
use mutinynet_indexer.Cache.Headers.{HeadersCache, resize, write, activate_one, store_active}
use mutinynet_indexer.Cache.Headers.Invariant.{IsForest, IsPath, IsLinked, IsValid}
use mutinynet_indexer.Cache.Headers.Activate.{IsActivating, activate-IsActivating}
use mutinynet_indexer.Db.Header.{HeaderRecord}

-- A vector that grows keeps its entries.
resize-grow {ℓ} :
    {A : Type ℓ} (xs : List A) (n k : ℕ) (v : A)
    → n ≡ length xs + k
    → resize n v xs ≡ xs ++ replicate k v
unfolding resize
resize-grow xs n k v e =
    let left : n - length xs ≡ k = omega arith in rw (take-all n xs (omega arith), left) refl

-- Writing what is there already goes through and changes nothing.
write_self {ℓ} :
    {A : Type ℓ} (xs : List A) (n : ℕ) {v : A}
    → n < length xs
    → get_elem? xs n ≡ some v
    → write n v xs ≡ ok xs
unfolding write
write_self xs n h e = rw (lt→ltb n (length xs) h, set_self xs n e) refl

module _ {H : Type 0} ⦃b : BlockHeader H⦄ where
  -- The cache is sound up to the record `p`, which is the last of its main chain. The best tip
  -- and the height are not looked at.
  pub record EndsAt (s : HeadersCache H) (p : HeaderRecord H) : Type 0 where
    pub forest : IsForest s.headers
    pub stored : lookup (block_hash p.header) s.headers ≡ some p
    pub flagged : p.in_longest ≡ true
    pub path : IsPath s.headers zero_hash 0 s.main_chain
    pub size : length s.main_chain ≡ suc p.height
    pub last : last_or zero_hash s.main_chain ≡ block_hash p.header

  -- The round for the root writes nothing new.
  activate_one-root :
      (p : HeaderRecord H) (s : HeadersCache H) (zs : List ℕ)
      → EndsAt s p
      → activate_one p.header p (record s { main_chain = s.main_chain ++ zs })
        ≡ ok (
          p,
          record s {
            main_chain = s.main_chain ++ zs;
            dirty = s.dirty ++ (block_hash p.header ∷ []);
          },
        )
  unfolding activate_one
  activate_one-root p s zs v =
      let same : record p { in_longest = true } ≡ p = ground (arith, v.flagged) in
      let lt : p.height < length s.main_chain = omega (arith, v.size) in
      let there : get_elem? (s.main_chain ++ zs) p.height ≡ some (block_hash p.header) =
        get_elem?-append_left s.main_chain zs p.height lt
        ∙ get_elem?-last zero_hash s.main_chain p.height v.size
        ∙ ap some v.last in
      let wrote : write p.height (block_hash p.header) (s.main_chain ++ zs)
          ≡ ok (s.main_chain ++ zs) =
        write_self (s.main_chain ++ zs) p.height (omega (arith, length-append s.main_chain zs))
          there in
      rw (v.stored, activate_one)
        (rw wrote (rw (same, insert_self (block_hash p.header) p s.headers v.stored) refl))

  -- What growing by the headers `hs` makes of a cache.
  pub record GrownBy (s s' : HeadersCache H) (p : HeaderRecord H) (hs : List H) : Type 0 where
    pub valid : IsValid s'
    pub main_chain : s'.main_chain ≡ s.main_chain ++ map block_hash hs
    pub best_tip : s'.best_tip ≡ block_hash (last_or p.header hs)
    pub height : s'.height ≡ p.height + length hs

  -- The cache at the end of `store_active`, from that of its loop.
  GrownBy-activate :
      (s s₁ : HeadersCache H) (p r : HeaderRecord H) (hs : List H)
      → EndsAt s p
      → IsActivating s₁ r (s.main_chain ++ map block_hash hs) []
      → GrownBy s
          (record s₁ { best_tip = block_hash (last_or p.header hs); height = p.height + length hs })
          p
          hs
  GrownBy-activate s s₁ p r hs v w =
      let grown : s₁.main_chain ≡ s.main_chain ++ map block_hash hs =
        w.chain ∙ append-nil (s.main_chain ++ map block_hash hs) in
      let size : length (s.main_chain ++ map block_hash hs) ≡ suc (p.height + length hs) =
        omega (
          arith,
          length-append s.main_chain (map block_hash hs),
          length-map block_hash hs,
          v.size,
        ) in
      let last : last_or zero_hash (s.main_chain ++ map block_hash hs)
          ≡ block_hash (last_or p.header hs) =
        last_or-append zero_hash s.main_chain (map block_hash hs)
        ∙ rw v.last (last_or-map block_hash p.header hs) in
      record {
        valid = record {
          forest = w.forest;
          path = rw grown w.path;
          size = rw grown size;
          tip = rw grown (
              get_elem?-last zero_hash (s.main_chain ++ map block_hash hs) (p.height + length hs)
                size
              ∙ ap some last);
        };
        main_chain = grown;
        best_tip = refl;
        height = refl;
      }

  -- A linked chain from the end of the main chain is taken over whole.
  pub store_active-GrownBy :
      (p : HeaderRecord H) (hs : List H) (chain : HeaderChain H) (s : HeadersCache H)
      → EndsAt s p
      → Chain.headers chain ≡ p.header ∷ hs
      → Chain.root_hash chain ≡ block_hash p.header
      → Chain.tip_hash chain ≡ block_hash (last_or p.header hs)
      → IsLinked (block_hash p.header) hs
      → (s' : HeadersCache H) × (store_active chain s ≡ ok s') × GrownBy s s' p hs
  unfolding store_active
  store_active-GrownBy p hs chain s v listed root tip linked =
      let k : ℕ = length hs in
      let zs : List ℕ = replicate k zero_hash in
      let height : p.height + Chain.len chain - 1 ≡ p.height + k =
        omega (arith, Chain.Refines.len-eq-length chain, ap length listed) in
      let resized : resize (p.height + k + 1) zero_hash s.main_chain ≡ s.main_chain ++ zs =
        resize-grow s.main_chain (p.height + k + 1) k zero_hash (omega (arith, v.size)) in
      let s₀ : HeadersCache H = record s {
        main_chain = s.main_chain ++ zs;
        dirty = s.dirty ++ (block_hash p.header ∷ []);
      } in
      let start : IsActivating s₀ p s.main_chain zs = record {
        forest = v.forest;
        stored = v.stored;
        path = v.path;
        last = v.last;
        size = v.size;
        chain = refl;
      } in
      let (r, s₁, ran, w) =
        activate-IsActivating hs p s₀ s.main_chain zs start (length-replicate k zero_hash) linked in
      (
        record s₁ { best_tip = block_hash (last_or p.header hs); height = p.height + k },
        rw (root, v.stored, height, resized, listed)
            (rw (activate_one-root p s zs v) (rw (ran, tip) refl)),
        GrownBy-activate s s₁ p r hs v w,
      )

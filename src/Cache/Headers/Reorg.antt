-- ===== src/Cache/Headers/Reorg.antt =====
-- `inactivate` (vault-indexer/src/cache/headers.rs): it takes a chain off the main chain, which
-- then ends below the root of that chain.
use mathlib.Core.Path.{subst}
use mutinynet_indexer.Common.{
  ℕ, suc, ◌<◌, ◌≡◌, refl, ap, ◌∙◌, sym, true, some, map, arith, length, length-take_le, take, drop,
  last_or, get_elem?, get_elem?-take, get_elem?-last,
}
use mutinynet_indexer.Common.Dict.{lookup}
use mutinynet_indexer.Cache.Block.{BlockHeader, block_hash, zero_hash}
use mutinynet_indexer.Cache.Error.{ok}
use mutinynet_indexer.Cache.Chain
use mutinynet_indexer.Cache.Chain.{HeaderChain}
use mutinynet_indexer.Cache.Headers.{HeadersCache, truncate, clear_flags, skip_root, inactivate}
use mutinynet_indexer.Cache.Headers.Invariant.{IsPath, IsValid}
use mutinynet_indexer.Cache.Headers.Path.{IsPath-frame, IsPath-take, IsPath-drop}
use mutinynet_indexer.Cache.Headers.Grow.{EndsAt}
use mutinynet_indexer.Cache.Headers.Clear.{AllAbove, path-AllAbove, Cleared, clear_flags-Cleared}
use mutinynet_indexer.Db.Header.{HeaderRecord}

module _ {H : Type 0} ⦃b : BlockHeader H⦄ where
  -- A record of the main chain at its index.
  pub record IsOnMain (s : HeadersCache H) (k : ℕ) (p : HeaderRecord H) : Type 0 where
    pub stored : lookup (block_hash p.header) s.headers ≡ some p
    pub at : get_elem? s.main_chain k ≡ some (block_hash p.header)
    pub height : p.height ≡ k
    pub flagged : p.in_longest ≡ true

  -- Once flags above `k` are cleared and the main chain is cut above `k`, it ends at the record
  -- of the index `k`.
  EndsAt-Cleared :
      (s s' : HeadersCache H) (k tip : ℕ) (p : HeaderRecord H)
      → IsValid s
      → IsOnMain s k p
      → k < s.height
      → Cleared s s' k
      → EndsAt
          (record s' { best_tip = tip; height = suc k; main_chain = take (suc k) s'.main_chain })
          p
  EndsAt-Cleared s s' k tip p v m lt c =
      let size : length (take (suc k) s.main_chain) ≡ suc k =
        length-take_le (suc k) s.main_chain (omega (arith, v.size)) in
      let last : last_or zero_hash (take (suc k) s.main_chain) ≡ block_hash p.header = cc (
        get_elem?-last zero_hash (take (suc k) s.main_chain) k size,
        get_elem?-take s.main_chain (suc k) k (omega arith),
        m.at,
      ) in
      record {
        forest = c.forest;
        stored = c.low (block_hash p.header) p m.stored (omega (arith, m.height));
        flagged = m.flagged;
        path = rw c.main_chain (
            IsPath-frame s.headers s'.headers zero_hash 0 (take (suc k) s.main_chain)
              (λ h r found low flag. c.low h r found (omega arith))
              (IsPath-take s.headers zero_hash 0 s.main_chain (suc k) v.path));
        size = rw c.main_chain (omega (arith, size, m.height));
        last = rw c.main_chain last;
      }

  -- What is above the index `k` of the main chain is stored above the height `k`.
  chain-AllAbove :
      (s : HeadersCache H) (k : ℕ) (chain : HeaderChain H)
      → IsValid s
      → k < s.height
      → map block_hash (Chain.headers chain) ≡ drop (suc k) s.main_chain
      → (r : HeaderRecord H) × (lookup (block_hash chain.root) s.headers ≡ some r)
        × (r.height ≡ suc k)
        × AllAbove s.headers k (skip_root chain)
  unfolding Chain.headers
  chain-AllAbove s k chain v lt e =
      let w : IsPath s.headers (last_or zero_hash (take (suc k) s.main_chain)) (suc k)
          (map block_hash (Chain.headers chain)) =
        subst (IsPath s.headers (last_or zero_hash (take (suc k) s.main_chain)) (suc k)) (sym e) (
          IsPath-drop s.headers zero_hash 0 s.main_chain (suc k) (suc k) (omega arith)
            (omega (arith, v.size)) v.path) in
      (
        w.0.0,
        w.0.1,
        w.0.2,
        path-AllAbove s.headers (block_hash chain.root) (suc (suc k)) k (skip_root chain) w.1
            (omega arith),
      )

  -- The end of `inactivate`, once the flags are cleared.
  inactivate-Cleared :
      (s s₁ : HeadersCache H) (k : ℕ) (p r : HeaderRecord H) (chain : HeaderChain H)
      → IsValid s
      → IsOnMain s k p
      → k < s.height
      → Cleared s s₁ k
      → clear_flags (skip_root chain) s ≡ ok s₁
      → lookup (block_hash chain.root) s₁.headers ≡ some r
      → r.height ≡ suc k
      → (s' : HeadersCache H) × (inactivate chain s ≡ ok s')
        × EndsAt s' p
        × (s'.main_chain ≡ take (suc k) s.main_chain)
        × (s'.orphans ≡ s.orphans)
  unfolding inactivate truncate Chain.root_hash
  inactivate-Cleared s s₁ k p r chain v m lt c ran found height = (
    record s₁ {
      best_tip = block_hash r.header;
      height = suc k;
      main_chain = take (suc k) s₁.main_chain;
    },
    rw (ran, found, height) refl,
    EndsAt-Cleared s s₁ k (block_hash r.header) p v m lt c,
    ap (take (suc k)) c.main_chain,
    c.orphans,
  )

  -- Taking off all that is above the index `k` of the main chain.
  pub inactivate-EndsAt :
      (s : HeadersCache H) (k : ℕ) (p : HeaderRecord H) (chain : HeaderChain H)
      → IsValid s
      → IsOnMain s k p
      → k < s.height
      → map block_hash (Chain.headers chain) ≡ drop (suc k) s.main_chain
      → (s' : HeadersCache H) × (inactivate chain s ≡ ok s')
        × EndsAt s' p
        × (s'.main_chain ≡ take (suc k) s.main_chain)
        × (s'.orphans ≡ s.orphans)
  inactivate-EndsAt s k p chain v m lt e =
      let (r, found, height, above) = chain-AllAbove s k chain v lt e in
      let (s₁, ran, c) = clear_flags-Cleared (skip_root chain) s k v.forest above in
      let (r', found', same) = c.keeps.kept (block_hash chain.root) r found in
      inactivate-Cleared s s₁ k p r' chain v m lt c ran found' (same ∙ height)

-- ===== src/Cache/Headers/Invariant.antt =====
-- When a cache is well formed: what is stored is a forest, and the main chain is a path in it.
use mutinynet_indexer.Common.{ℕ, suc, ◌≡◌, ◌⊎◌, true, some, List, [], ◌∷◌, length, get_elem?}
use mutinynet_indexer.Common.Dict.{Dict, lookup}
use mutinynet_indexer.Cache.Block.{BlockHeader, block_hash, prev_blockhash, zero_hash}
use mutinynet_indexer.Cache.Headers.{HeadersCache}
use mutinynet_indexer.Db.Header.{HeaderRecord}

module _ {H : Type 0} ⦃b : BlockHeader H⦄ where
  -- A genesis record, or one whose parent is stored one lower.
  abbrev pub Parented : Dict (HeaderRecord H) → HeaderRecord H → Type 0
  Parented d r =
      ((r.height ≡ 0) × (prev_blockhash r.header ≡ zero_hash))
      ⊎ ((q : HeaderRecord H) × (lookup (prev_blockhash r.header) d ≡ some q)
          × (r.height ≡ suc q.height))

  -- Every record stands under the hash of its header, and has its parent.
  pub record IsForest (d : Dict (HeaderRecord H)) : Type 0 where
    pub keyed : (h : ℕ) (r : HeaderRecord H) → lookup h d ≡ some r → block_hash r.header ≡ h
    pub parented : (h : ℕ) (r : HeaderRecord H) → lookup h d ≡ some r → Parented d r

  -- The hashes are those of flagged records, each the parent of the next, at heights from `n` on.
  abbrev pub IsPath : Dict (HeaderRecord H) → ℕ → ℕ → List ℕ → Type 0
  IsPath d parent n [] = Unit {0}
  IsPath d parent n (h ∷ hs) =
      ((r : HeaderRecord H) × (lookup h d ≡ some r)
        × (r.height ≡ n)
        × (prev_blockhash r.header ≡ parent)
        × (r.in_longest ≡ true))
      × IsPath d h (suc n) hs

  -- The main chain leads from genesis to the best tip, which stands at the current height.
  pub record IsValid (s : HeadersCache H) : Type 0 where
    pub forest : IsForest s.headers
    pub path : IsPath s.headers zero_hash 0 s.main_chain
    pub size : length s.main_chain ≡ suc s.height
    pub tip : get_elem? s.main_chain s.height ≡ some s.best_tip

  -- Headers that follow one another, the first after the given hash.
  abbrev pub IsLinked : ℕ → List H → Type 0
  IsLinked parent [] = Unit {0}
  IsLinked parent (h ∷ hs) = (prev_blockhash h ≡ parent) × IsLinked (block_hash h) hs

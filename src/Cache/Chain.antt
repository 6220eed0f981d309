-- ===== src/Cache/Chain.antt =====
-- `HeaderChain` (vault-indexer/src/cache/headers.rs): a run of headers, not always from genesis,
-- that grows at both ends.
pub mod Refines
use mutinynet_indexer.Common.{
  ℕ, ◌+◌, Bool, true, false, Option, none, some, List, [], ◌∷◌, ◌++◌, reverse, length, ◌==◌,
  if◌then◌else◌,
}
use mathlib.Core.List.{foldl}
use mutinynet_indexer.Cache.Block.{BlockHeader, block_hash, prev_blockhash, work}
use mutinynet_indexer.Cache.Error.{Result, ok, err, chain_mismatch_tip, chain_mismatch_root}

pub record HeaderChain (H : Type 0) : Type 0 where
  pub root : H
  pub trunk_rev : List H
  pub trunk_for : List H

module _ {H : Type 0} where
  unfoldable pub new : H → HeaderChain H
  new root = record { root = root; trunk_rev = []; trunk_for = [] }

  unfoldable pub from_headers : H → List H → HeaderChain H
  from_headers root headers = record { root = root; trunk_rev = []; trunk_for = headers }

  unfoldable pub len : HeaderChain H → ℕ
  len c = 1 + length c.trunk_rev + length c.trunk_for

  -- The iterator: the root, the reversed trunk from its end, the forward trunk.
  unfoldable pub headers : HeaderChain H → List H
  headers c = c.root ∷ (reverse c.trunk_rev ++ c.trunk_for)

-- `slice::last`
abbrev pub last {ℓ} : {A : Type ℓ} → List A → Option A
last [] = none
last (x ∷ []) = some x
last (x ∷ y ∷ xs) = last (y ∷ xs)

module _ {H : Type 0} ⦃b : BlockHeader H⦄ where
  unfoldable pub root_hash : HeaderChain H → ℕ
  root_hash c = block_hash c.root

  unfoldable pub tip_hash : HeaderChain H → ℕ
  unfolding root_hash
  tip_hash c = elim (last c.trunk_for) [ none ↦ root_hash c | some h ↦ block_hash h ]

  -- Add headers to the end of the chain; only the parent of the first is compared.
  unfoldable pub extend_tip : List H → HeaderChain H → Result (HeaderChain H)
  unfolding tip_hash
  extend_tip [] c = ok c
  extend_tip (header ∷ rest) c =
      let current_tip = tip_hash c in
      if current_tip == prev_blockhash header
      then ok (record c { trunk_for = c.trunk_for ++ (header ∷ rest) })
      else err (chain_mismatch_tip current_tip (block_hash header))

  -- Add a header to the beginning of the chain.
  unfoldable pub push_root : H → HeaderChain H → Result (HeaderChain H)
  unfolding root_hash
  push_root header c =
      if block_hash header == prev_blockhash c.root
      then ok (record c { trunk_rev = c.trunk_rev ++ (c.root ∷ []); root = header })
      else err (chain_mismatch_root (root_hash c) (block_hash header))

  abbrev pub add_work : ℕ → H → ℕ
  add_work w header = w + work header

  unfoldable pub total_work : HeaderChain H → ℕ
  total_work c =
      let half_work = foldl add_work (work c.root) c.trunk_rev in
      foldl add_work half_work c.trunk_for

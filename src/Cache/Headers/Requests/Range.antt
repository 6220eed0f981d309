-- ===== src/Cache/Headers/Requests/Range.antt =====
-- Which blocks are asked for (`make_get_blocks`, vault-indexer/src/cache/headers.rs).
use mutinynet_indexer.Common.{
  ℕ, zero, suc, ◌+◌, ◌-◌, ◌%◌, ◌^◌, ◌≤◌, ◌<◌, ◌≡◌, refl, sym, ap, ◌∙◌, List, [], ◌∷◌, length, map,
  take, drop, take-all, drop-all, drop-eq-cons, get_elem?-some, min, arith,
}
use native.Mathlib.Decide.{dec_le}
use mutinynet_indexer.Cache.Block.{BlockHeader}
use mutinynet_indexer.Cache.Error.{ok}
use mutinynet_indexer.Cache.Headers.{HeadersCache, get_blockhash_at}
use mutinynet_indexer.Cache.Headers.Invariant.{IsValid}
use mutinynet_indexer.Cache.Headers.Requests.{range_from, hashes_at, make_get_blocks}
use mutinynet_indexer.P2p.{get_data}
use mutinynet_indexer.P2p.Blockdata.{block}

pub length-drop_le : (n : ℕ) (xs : List ℕ) → n ≤ length xs → length (drop n xs) + n ≡ length xs
length-drop_le zero xs h = omega arith
length-drop_le (suc n) [] h = elim h [ ]
length-drop_le (suc n) (x ∷ xs) h = omega (arith, length-drop_le n xs (omega arith))

-- The number of heights that are asked for reaches as far as the amount does, or to the end.
clipped :
    (a c h : ℕ) (xs : List ℕ)
    → c ≡ min (h + a) (length xs) - h
    → take c (drop h xs) ≡ take a (drop h xs)
clipped a c h xs e = elim (dec_le (h + a) (length xs)) [
  | yes inside ↦ ap (λ n. take n (drop h xs)) (omega arith)
  | no beyond ↦ elim (dec_le h (length xs)) [
    | yes low ↦
        (let size = length-drop_le h xs low in
          take-all c (drop h xs) (omega arith) ∙ sym (take-all a (drop h xs) (omega arith)))
    | no high ↦
        (let none_left : drop h xs ≡ [] = drop-all h xs (omega arith) in
          take-all c (drop h xs) (rw none_left (omega arith))
          ∙ sym (take-all a (drop h xs) (rw none_left (omega arith))))
  ]
]

module _ {H : Type 0} where
  hashes_at-range :
      (c h : ℕ) (s : HeadersCache H)
      → h + c ≤ length s.main_chain
      → hashes_at (range_from h c) s ≡ ok (take c (drop h s.main_chain))
  unfolding hashes_at range_from get_blockhash_at
  hashes_at-range zero h s fits = refl
  hashes_at-range (suc c) h s fits =
      let (x, found) = get_elem?-some s.main_chain h (omega arith) in
      rw (drop-eq-cons h s.main_chain found, found, hashes_at-range c (suc h) s (omega arith)) refl

  -- A range that is cut at the end of the main chain.
  hashes_at-cut :
      (c h : ℕ) (s : HeadersCache H)
      → c ≤ length s.main_chain - h
      → hashes_at (range_from h c) s ≡ ok (take c (drop h s.main_chain))
  unfolding hashes_at range_from
  hashes_at-cut zero h s fits = refl
  hashes_at-cut (suc c) h s fits = hashes_at-range (suc c) h s (omega arith)

module _ {H : Type 0} ⦃b : BlockHeader H⦄ where
  -- In a well-formed cache the request for blocks is made without an error, and asks for the
  -- blocks of the main chain from the given height on, in order, as many as the given amount or
  -- as there are, where height and amount do not add up to more than a `u32` holds.
  pub make_get_blocks-eq-take :
      (height amount : ℕ) (s : HeadersCache H)
      → IsValid s
      → height + amount < 2 ^ 32
      → make_get_blocks height amount s
        ≡ ok (get_data (map block (take amount (drop height s.main_chain))))
  unfolding make_get_blocks
  make_get_blocks-eq-take height amount s v small =
      let count : ℕ = min ((height + amount) % 2 ^ 32) (s.height + 1) - height in
      let run : hashes_at (range_from height count) s ≡ ok (take count (drop height s.main_chain)) =
        hashes_at-cut count height s (omega (arith, v.size)) in
      let whole : take count (drop height s.main_chain) ≡ take amount (drop height s.main_chain) =
        clipped amount count height s.main_chain (omega (arith, v.size)) in
      rw (run) (ap (λ hashes. ok (get_data (map block hashes))) whole)

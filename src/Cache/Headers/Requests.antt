-- ===== src/Cache/Headers/Requests.antt =====
-- The requests that are made from the main chain, and the locator of Bitcoin core
-- (vault-indexer/src/cache/headers.rs).
pub mod Locator
pub mod Range
use mutinynet_indexer.Common.{
  ℕ, zero, suc, ◌+◌, ◌*◌, ◌-◌, ◌%◌, ◌^◌, List, [], ◌∷◌, ◌++◌, length, map, min, ltb, leb,
  if◌then◌else◌,
}
use mutinynet_indexer.Common.Int.{ℤ, pos, pos_part, ◌-ℤ◌, signed32}
use mutinynet_indexer.Cache.Block.{zero_hash}
use mutinynet_indexer.Cache.Error.{Result, ok, missing_header_height, ok_or, ◌>>=◌}
use mutinynet_indexer.Cache.Headers.{HeadersCache, get_blockhash_at}
use mutinynet_indexer.P2p.{GetHeadersMessage, NetworkMessage, get_data}
use mutinynet_indexer.P2p.Blockdata.{block}

-- The loop of `get_locator_heights`. The fuel bounds its rounds, each of which lowers `i`.
unfoldable pub locator_loop : ℕ → ℤ → ℕ → List ℕ → List ℕ
locator_loop zero i step is = is
locator_loop (suc fuel) i step is =
    let step' = if leb 10 (length is) then step * 2 else step in
    let rest = locator_loop fuel (i -ℤ pos step') step' (is ++ (pos_part i ∷ [])) in
    if ltb 0 (pos_part i) then rest else is

-- The height is cast to `i32`, so one of 2 ^ 31 or more counts as negative.
unfoldable pub get_locator_heights : ℕ → List ℕ
unfolding locator_loop
get_locator_heights height =
    let i = signed32 height in locator_loop (pos_part i + 1) i 1 [] ++ (0 ∷ [])

-- The numbers from `start` on, as many as `count`.
unfoldable pub range_from : ℕ → ℕ → List ℕ
range_from start zero = []
range_from start (suc count) = start ∷ range_from (suc start) count

module _ {H : Type 0} where
  -- The loops that collect the hashes at heights of the main chain.
  unfoldable pub hashes_at : List ℕ → HeadersCache H → Result (List ℕ)
  unfolding get_blockhash_at
  hashes_at [] s = ok []
  hashes_at (i ∷ is) s = do
    hash ← ok_or (get_blockhash_at i s) (missing_header_height i)
    hashes ← hashes_at is s
    ok (hash ∷ hashes)

  unfoldable pub get_height_locator : ℕ → HeadersCache H → Result (List ℕ)
  unfolding hashes_at get_locator_heights
  get_height_locator height s = hashes_at (get_locator_heights height) s

  unfoldable pub get_locator_main_chain : HeadersCache H → Result (List ℕ)
  unfolding get_height_locator
  get_locator_main_chain s = get_height_locator s.height s

  unfoldable pub make_get_headers : HeadersCache H → Result GetHeadersMessage
  unfolding get_locator_main_chain
  make_get_headers s = do
    locator_hashes ← get_locator_main_chain s
    ok (record { locator_hashes = locator_hashes; stop_hash = zero_hash })

  -- The end of the range is a sum of `u32`.
  unfoldable pub make_get_blocks : ℕ → ℕ → HeadersCache H → Result (NetworkMessage H)
  unfolding hashes_at range_from
  make_get_blocks height amount s = do
    let end = min ((height + amount) % 2 ^ 32) (s.height + 1)
    hashes ← hashes_at (range_from height (end - height)) s
    ok (get_data (map block hashes))

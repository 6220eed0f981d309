-- ===== src/Indexer/Handlers/Request.antt =====
-- The requests for blocks (vault-indexer/src/indexer/mod.rs).
use mutinynet_indexer.Common.{
  ℕ, suc, ◌+◌, ◌-◌, ◌%◌, ◌^◌, ◌≤◌, ◌<◌, ◌≡◌, ap, ◌∙◌, List, [], ◌∷◌, length, map, take, drop, min,
  zero, Bool, false, some, ◌==◌, if◌then◌else◌, ◌++◌, arith,
}
use mutinynet_indexer.Common.Int.{ℤ, pos, ◌+ℤ◌, leb_ℤ}
use mutinynet_indexer.Cache.Block.{BlockHeader}
use mutinynet_indexer.Cache.Headers.{get_current_height}
use mutinynet_indexer.Cache.Headers.Invariant.{IsValid}
use mutinynet_indexer.Cache.Headers.Requests.{make_get_blocks}
use mutinynet_indexer.Cache.Headers.Requests.Range.{make_get_blocks-eq-take, length-drop_le}
use mutinynet_indexer.Db.Metadata.{DbMetadata, MetaTable, load_metada, get_scanned_height}
use mutinynet_indexer.Indexer.{Indexer, send}
use mutinynet_indexer.Indexer.Error.{Result, ok, from_cache, from_database, ◌>>=◌}
use mutinynet_indexer.Indexer.Event.{outcoming_message}
use mutinynet_indexer.Indexer.Handlers.{
  request_blocks, request_headers, request_next, max_headers_per_msg, sub_u32,
}
use mutinynet_indexer.P2p.{get_data}
use mutinynet_indexer.P2p.Blockdata.{block}

length-take : (n : ℕ) (xs : List ℕ) → length (take n xs) ≡ min n (length xs)
length-take zero xs = omega arith
length-take (suc n) [] = omega arith
length-take (suc n) (x ∷ xs) = omega (arith, length-take n xs)

-- How many blocks are asked for.
pub length-asked :
    (batch scanned height : ℕ) (chain : List ℕ)
    → length chain ≡ suc height
    → scanned ≤ height
    → length (take batch (drop (suc scanned) chain)) ≡ min batch (height - scanned)
length-asked batch scanned height chain size le = omega (
  arith,
  length-take batch (drop (suc scanned) chain),
  length-drop_le (suc scanned) chain (omega arith),
)

module _ {H : Type 0} ⦃b : BlockHeader H⦄ where
  -- The state after the request of the given blocks.
  abbrev pub asked : List ℕ → Indexer H → Indexer H
  asked hashes s = record s {
    sent = s.sent ++ (outcoming_message (get_data (map block hashes)) ∷ []);
    batch_left = s.batch_left +ℤ pos (length hashes);
  }

  -- The blocks above a height of the main chain are asked for in order, as many as the size of a
  -- batch or as there are, and just as many are counted in.
  pub request_blocks-asks :
      (scanned : ℕ) (s : Indexer H)
      → IsValid s.headers_cache
      → scanned ≤ s.headers_cache.height
      → s.headers_cache.height + s.batch_size + 1 < 2 ^ 32
      → request_blocks scanned s
        ≡ ok (asked (take s.batch_size (drop (suc scanned) s.headers_cache.main_chain)) s)
  unfolding request_blocks send get_current_height
  request_blocks-asks scanned s v le small =
      let chain : List ℕ = s.headers_cache.main_chain in
      let hashes : List ℕ = take s.batch_size (drop (suc scanned) chain) in
      let n : ℕ = min s.batch_size (sub_u32 s.headers_cache.height scanned) in
      let next : (scanned + 1) % 2 ^ 32 ≡ suc scanned = omega arith in
      let run : make_get_blocks ((scanned + 1) % 2 ^ 32) s.batch_size s.headers_cache
          ≡ ok (get_data (map block hashes)) =
        ap (λ i. make_get_blocks i s.batch_size s.headers_cache) next
        ∙ make_get_blocks-eq-take (suc scanned) s.batch_size s.headers_cache v (omega arith) in
      let count : n ≡ length hashes =
        omega (arith, length-asked s.batch_size scanned s.headers_cache.height chain v.size le) in
      ap
        (λ m. from_cache m >>= (λ msg. ok (record s {
          sent = s.sent ++ (outcoming_message msg ∷ []);
          batch_left = s.batch_left +ℤ pos n;
        })))
        run
      ∙ ap
          (λ k. ok (record s {
            sent = s.sent ++ (outcoming_message (get_data (map block hashes)) ∷ []);
            batch_left = s.batch_left +ℤ pos k;
          }))
          count

module _ {H : Type 0} where
  -- After headers that do not fill a message, an indexer that expects no block asks for blocks.
  pub request_next-blocks :
      (count : ℕ) (m : DbMetadata) (s : Indexer H)
      → count < max_headers_per_msg
      → s.batch_left ≡ pos 0
      → s.database.metadata ≡ some m
      → request_next count s ≡ request_blocks m.scanned_height s
  unfolding request_next get_scanned_height load_metada
  request_next-blocks count m s few left found =
      let not_full : (count == max_headers_per_msg) ≡ false = ground arith in
      let scan : MetaTable → Result (Indexer H) =
        λ table. from_database (get_scanned_height table) >>= (λ h. request_blocks h s) in
      let unless_full : Bool → ℤ → MetaTable → Result (Indexer H) = λ t l table.
        if t then request_headers s else if leb_ℤ l (pos 0) then scan table else ok s in
      ap (λ t. unless_full t s.batch_left s.database.metadata) not_full
      ∙ ap (λ l. unless_full false l s.database.metadata) left
      ∙ ap (λ table. unless_full false (pos 0) table) found

-- ===== src/Indexer/Run/Deliver.antt =====
-- The scan catches up with the main chain when the node delivers the blocks
-- (vault-indexer/src/indexer/mod.rs).
use mathlib.Core.List.{append-nil}
use mathlib.Core.Path.{subst}
use mutinynet_indexer.Common.{
  ℕ, zero, suc, ◌≤◌, ◌<◌, ◌≡◌, refl, sym, ap, ◌∙◌, some, List, [], ◌∷◌, ◌++◌, length, map, take,
  drop, drop-all, get_elem?, inl, inr, arith,
}
use mutinynet_indexer.Common.Int.{pos}
use mutinynet_indexer.Cache.Block.{BlockHeader, block_hash}
use mutinynet_indexer.Cache.Headers.Requests.Range.{length-drop_le}
use mutinynet_indexer.Db.Metadata.{DbMetadata}
use mutinynet_indexer.Indexer.{Indexer}
use mutinynet_indexer.Indexer.Error.{ok}
use mutinynet_indexer.Indexer.Event.{Event, incoming_message}
use mutinynet_indexer.Indexer.Handlers.{request_next, max_headers_per_msg}
use mutinynet_indexer.Indexer.Handlers.Request.{asked, request_next-blocks}
use mutinynet_indexer.Indexer.Run.{Round, received, running, run_loop, on_event, on_message}
use mutinynet_indexer.P2p.{Block, block}
use mutinynet_indexer.Indexer.Run.CatchUp.{
  IsSound, IsScanning, IsCaughtUp, Asks, Asks-trans, unasked, wanted, request_blocks-IsScanning,
  on_new_block-After,
}
use mutinynet_indexer.Vault.Bitcoin.{Script}
use mutinynet_indexer.Vault.Runes.{Ordinals}

-- The first of what is left of a list is an entry of the list.
drop-cons :
    (n : ℕ) (xs : List ℕ) {y : ℕ} {ys : List ℕ}
    → drop n xs ≡ y ∷ ys
    → (get_elem? xs n ≡ some y) × (drop (suc n) xs ≡ ys)
drop-cons zero [] h = cc
drop-cons zero (x ∷ xs) h = (cc, cc)
drop-cons (suc n) [] h = cc
drop-cons (suc n) (x ∷ xs) h = drop-cons n xs h

module _ {H : Type 0} ⦃b : BlockHeader H⦄ ⦃c : Script⦄ ⦃o : Ordinals⦄ where
  -- The node sends blocks.
  abbrev pub deliveries : List (Block H) → List (Round H)
  deliveries blocks = map (λ arrived. received (incoming_message (block arrived))) blocks

  abbrev pub hashes_of : List (Block H) → List ℕ
  hashes_of blocks = map (λ arrived. block_hash arrived.header) blocks

  -- When the scan has caught up, no block is left.
  none_left :
      (fuel : ℕ) (blocks : List (Block H)) (u : Indexer H) (n : ℕ)
      → IsCaughtUp u
      → u.headers_cache.height ≤ n
      → drop (suc n) u.headers_cache.main_chain ≡ hashes_of blocks
      → (v : Indexer H) × (run_loop fuel (deliveries blocks) u ≡ ok (running v))
        × IsCaughtUp v
        × (v.sent ≡ u.sent)
  unfolding run_loop
  none_left fuel [] u n caught le rest = (u, refl, caught, refl)
  none_left fuel (x ∷ xs) u n caught le rest =
      let gone : drop (suc n) u.headers_cache.main_chain ≡ [] =
        drop-all (suc n) u.headers_cache.main_chain (omega (arith, caught.sound.valid.size)) in
      cc

  deliveries-IsCaughtUp :
      (fuel at : ℕ) (blocks : List (Block H)) (s : Indexer H)
      → (scanning : IsScanning at s) → drop (suc at) s.headers_cache.main_chain ≡ hashes_of blocks
      → (u : Indexer H) × (run_loop fuel (deliveries blocks) s ≡ ok (running u))
        × IsCaughtUp u
        × Asks (unasked at s scanning) s.sent u.sent []
  unfolding run_loop on_event on_message
  deliveries-IsCaughtUp fuel at [] s scanning rest = absurd (
      omega (
        arith,
        scanning.room,
        scanning.sound.valid.size,
        ap length rest,
        length-drop_le (suc at) s.headers_cache.main_chain
            (omega (arith, scanning.room, scanning.sound.valid.size)),
      ))
  deliveries-IsCaughtUp fuel at (x ∷ xs) s scanning rest =
      let (on_main, rest') = drop-cons (suc at) s.headers_cache.main_chain rest in
      let (t, run, same, next) = on_new_block-After at x s scanning on_main in
      let rest'' : drop (suc (suc at)) t.headers_cache.main_chain ≡ hashes_of xs =
        ap (λ cache. drop (suc (suc at)) cache.main_chain) same ∙ rest' in
      let (u, ran, caught, asks) : (u : Indexer H) × (run_loop fuel (deliveries xs) t
            ≡ ok (running u))
          × IsCaughtUp u
          × Asks (unasked at s scanning) s.sent u.sent [] =
        elim next [
          | inl (scanning', asks) ↦
              (let (u, ran, caught, more) =
                  deliveries-IsCaughtUp fuel (suc at) xs t scanning' rest'' in
                (u, ran, caught, Asks-trans _ _ _ _ _ _ asks more))
          | inr (top, caught, asks) ↦
              (let (u, ran, caught', quiet) =
                  none_left fuel xs t (suc at) caught (omega (arith, top, ap (λ h. h.height) same))
                    rest'' in
                (
                  u,
                  ran,
                  caught',
                  subst (λ sent. Asks (unasked at s scanning) s.sent sent []) (sym quiet) asks,
                ))
        ] in
      (u, rw run ran, caught, asks)

  -- In a sound indexer that expects no block, whose database has metadata and was scanned up to a
  -- height below the main chain's, the end of the headers makes it ask for the first blocks above
  -- that height, as many as a batch has. When then the blocks of the main chain above that height
  -- arrive in order, it takes them without an error, whatever their transactions are; the messages
  -- that it queued for the node since then ask for each of these blocks once and in order; and at
  -- the end the database says that the whole main chain is scanned.
  pub sync-IsCaughtUp :
      (fuel count : ℕ) (blocks : List (Block H)) (m : DbMetadata) (s : Indexer H)
      → IsSound s
      → s.batch_left ≡ pos 0
      → s.database.metadata ≡ some m
      → s.max_scanned_height ≤ m.scanned_height
      → m.scanned_height < s.headers_cache.height
      → count < max_headers_per_msg
      → drop (suc m.scanned_height) s.headers_cache.main_chain ≡ hashes_of blocks
      → (t : Indexer H) × (u : Indexer H) × (asks : List (Event H)) × (request_next count s ≡ ok t)
        × (t ≡ asked (take s.batch_size (hashes_of blocks)) s)
        × (run_loop fuel (deliveries blocks) t ≡ ok (running u))
        × IsCaughtUp u
        × (u.sent ≡ s.sent ++ asks)
        × (wanted asks ≡ hashes_of blocks)
  sync-IsCaughtUp fuel count blocks m s sound left found low below few rest =
      let (t, run, first, same, (scanning, asks)) =
        request_blocks-IsScanning m.scanned_height s sound left below low (m, found) in
      let (u, ran, caught, more) =
        deliveries-IsCaughtUp fuel m.scanned_height blocks t scanning
          (ap (λ cache. drop (suc m.scanned_height) cache.main_chain) same ∙ rest) in
      let all : Asks (drop (suc m.scanned_height) s.headers_cache.main_chain) s.sent u.sent [] =
        Asks-trans _ _ _ _ _ _ asks more in
      (
        t,
        u,
        all.asks,
        request_next-blocks count m s few left found ∙ run,
        first ∙ ap (λ hashes. asked (take s.batch_size hashes) s) rest,
        ran,
        caught,
        all.sent,
        sym (append-nil (wanted all.asks)) ∙ sym all.blocks ∙ rest,
      )

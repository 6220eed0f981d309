-- ===== src/Indexer/Run/CatchUp.antt =====
-- The scan catches up with the main chain when the node delivers the blocks
-- (vault-indexer/src/indexer/mod.rs).
use mathlib.Core.List.{append-nil, append_assoc}
use mathlib.Core.Path.{subst}
use native.Mathlib.Decide.{dec_lt}
use mutinynet_indexer.Common.{
  ℕ, zero, suc, ◌+◌, ◌^◌, ◌≤◌, ◌<◌, ◌≡◌, refl, sym, ap, ◌∙◌, false, some, List, [], ◌∷◌, ◌++◌, map,
  length, take, drop, drop-all, get_elem?, min, ◌-◌, ltb, if◌then◌else◌, lt→ltb, ge→ltb, inl, inr,
  ◌⊎◌, arith,
}
use mutinynet_indexer.Common.Int.{pos, ◌+ℤ◌, ◌-ℤ◌, leb_ℤ, int_laws}
use mutinynet_indexer.Cache.Block.{BlockHeader, block_hash, zero_hash}
use mutinynet_indexer.Cache.Headers.{get_header, get_current_height}
use mutinynet_indexer.Cache.Headers.Invariant.{IsValid}
use mutinynet_indexer.Cache.Headers.Path.{path-entry}
use mutinynet_indexer.Db.Metadata.{DbMetadata, load_metada, store_metadata, set_scanned_height}
use mutinynet_indexer.Db.Vault.{VaultTables}
use mutinynet_indexer.Db.Vault.Invariant.{IsConsistent}
use mutinynet_indexer.Indexer.{Indexer}
use mutinynet_indexer.Indexer.Blocks.Rows.{scanned}
use mutinynet_indexer.Indexer.Blocks.Scan.{process_block-Scans}
use mutinynet_indexer.Indexer.Error.{Result, ok}
use mutinynet_indexer.Indexer.Event.{Event, outcoming_message}
use mutinynet_indexer.Indexer.Handlers.{on_new_block, count_block, finish_batch, request_blocks}
use mutinynet_indexer.Indexer.Handlers.Request.{asked, request_blocks-asks, length-asked}
use mutinynet_indexer.P2p.{Block, get_data}
use mutinynet_indexer.P2p.Blockdata.{Inventory, block, other}
use mutinynet_indexer.Vault.Bitcoin.{Script}
use mutinynet_indexer.Vault.Runes.{Ordinals}

count_down : (k : ℕ) → pos (suc k) -ℤ pos 1 ≡ pos k
count_down k = grind int_laws

count_up : (n : ℕ) → pos 0 +ℤ pos n ≡ pos n
count_up n = grind int_laws

some_left : (k : ℕ) → leb_ℤ (pos (suc k)) (pos 0) ≡ false
some_left k = ground arith

-- The hashes of the blocks in a request.
unfoldable pub block_hashes : List Inventory → List ℕ
block_hashes [] = []
block_hashes (block hash ∷ invs) = hash ∷ block_hashes invs
block_hashes (other ∷ invs) = block_hashes invs

block_hashes-map : (hashes : List ℕ) → block_hashes (map block hashes) ≡ hashes
unfolding block_hashes
block_hashes-map [] = refl
block_hashes-map (hash ∷ hashes) = ap (λ l. hash ∷ l) (block_hashes-map hashes)

take-drop-length : (n : ℕ) (xs : List ℕ) → take n xs ++ drop (length (take n xs)) xs ≡ xs
take-drop-length zero xs = refl
take-drop-length (suc n) [] = refl
take-drop-length (suc n) (x ∷ xs) = ap (λ l. x ∷ l) (take-drop-length n xs)

drop-nil : (m : ℕ) → drop {A = ℕ} m [] ≡ []
drop-nil zero = refl
drop-nil (suc m) = refl

drop-drop : (m n : ℕ) (xs : List ℕ) → drop m (drop n xs) ≡ drop (n + m) xs
drop-drop m zero xs = let same : m ≡ 0 + m = omega arith in ap (λ k. drop k xs) same
drop-drop m (suc n) [] = drop-nil m ∙ sym (drop-nil (suc n + m))
drop-drop m (suc n) (x ∷ xs) =
    let same : suc (n + m) ≡ suc n + m = omega arith in
    drop-drop m n xs ∙ ap (λ k. drop k (x ∷ xs)) same

module _ {H : Type 0} where
  -- The blocks that events ask for.
  unfoldable pub wanted : List (Event H) → List ℕ
  unfolding block_hashes
  wanted [] = []
  wanted (outcoming_message (get_data invs) ∷ events) = block_hashes invs ++ wanted events
  wanted (_ ∷ events) = wanted events

  wanted-append : (xs ys : List (Event H)) → wanted (xs ++ ys) ≡ wanted xs ++ wanted ys
  unfolding wanted
  wanted-append [] ys = refl
  wanted-append (outcoming_message (get_data invs) ∷ xs) ys =
      ap (λ l. block_hashes invs ++ l) (wanted-append xs ys)
      ∙ sym (append_assoc (block_hashes invs) (wanted xs) (wanted ys))
  wanted-append (_ ∷ xs) ys = wanted-append xs ys

module _ {H : Type 0} ⦃b : BlockHeader H⦄ ⦃c : Script⦄ ⦃o : Ordinals⦄ where
  -- What holds of the indexer all the time, and keeps heights within `u32`.
  pub record IsSound (s : Indexer H) : Type 0 where
    pub valid : IsValid s.headers_cache
    pub consistent : IsConsistent s.database.vaults
    pub small : s.headers_cache.height + s.batch_size + 1 < 2 ^ 32
    pub some_batch : 1 ≤ s.batch_size

  -- The blocks of the main chain up to the height `at` are scanned, and `k + 1` are to come.
  pub record IsScanning (at : ℕ) (s : Indexer H) : Type 0 where
    pub sound : IsSound s
    pub k : ℕ
    pub left : s.batch_left ≡ pos (suc k)
    pub room : at + suc k ≤ s.headers_cache.height
    pub low : s.max_scanned_height ≤ at
    pub has_metadata : (m : DbMetadata) × (s.database.metadata ≡ some m)

  -- The blocks of the main chain that are not asked for yet.
  abbrev pub unasked : (at : ℕ) (s : Indexer H) → IsScanning at s → List ℕ
  unasked at s scanning = drop (suc (suc (at + scanning.k))) s.headers_cache.main_chain

  -- The whole main chain is scanned, and the database says so.
  pub record IsCaughtUp (s : Indexer H) : Type 0 where
    pub sound : IsSound s
    pub left : s.batch_left ≡ pos 0
    pub says :
        (m : DbMetadata) × (s.database.metadata ≡ some m)
        × (m.scanned_height ≡ s.headers_cache.height)

  -- What was queued to be sent between two states, and the blocks that were not asked for before and after: the
  -- messages ask for just those that make the difference, in order.
  pub record Asks (before : List ℕ) (old new : List (Event H)) (after : List ℕ) : Type 0 where
    pub asks : List (Event H)
    pub sent : new ≡ old ++ asks
    pub blocks : before ≡ wanted asks ++ after

  Asks-none : (xs ys : List ℕ) (sent : List (Event H)) → xs ≡ ys → Asks xs sent sent ys
  unfolding wanted
  Asks-none xs ys sent same = record { asks = []; sent = sym (append-nil sent); blocks = same }

  pub Asks-trans :
      (xs ys zs : List ℕ) (old mid new : List (Event H))
      → Asks xs old mid ys
      → Asks ys mid new zs
      → Asks xs old new zs
  Asks-trans xs ys zs old mid new first last = record {
    asks = first.asks ++ last.asks;
    sent = last.sent ∙ ap (λ l. l ++ last.asks) first.sent ∙ append_assoc old first.asks last.asks;
    blocks =
        first.blocks
        ∙ ap (λ l. wanted first.asks ++ l) last.blocks
        ∙ sym (append_assoc (wanted first.asks) (wanted last.asks) zs)
        ∙ ap (λ l. l ++ zs) (sym (wanted-append first.asks last.asks));
  }

  -- A request of blocks from the height that was reached.
  pub request_blocks-IsScanning :
      (at : ℕ) (s : Indexer H)
      → IsSound s
      → s.batch_left ≡ pos 0
      → at < s.headers_cache.height
      → s.max_scanned_height ≤ at
      → (m : DbMetadata) × (s.database.metadata ≡ some m)
      → (t : Indexer H) × (request_blocks at s ≡ ok t)
        × (t ≡ asked (take s.batch_size (drop (suc at) s.headers_cache.main_chain)) s)
        × (t.headers_cache ≡ s.headers_cache)
        × ((scanning : IsScanning at t) × Asks
              (drop (suc at) s.headers_cache.main_chain)
              s.sent
              t.sent
              (unasked at t scanning))
  unfolding wanted
  request_blocks-IsScanning at s sound left below low m =
      let hashes : List ℕ = take s.batch_size (drop (suc at) s.headers_cache.main_chain) in
      let k : ℕ = min s.batch_size (s.headers_cache.height - at) - 1 in
      let count : length hashes ≡ suc k = omega (
        arith,
        sound.some_batch,
        length-asked s.batch_size at s.headers_cache.height s.headers_cache.main_chain
            sound.valid.size (omega arith),
      ) in
      let reached : suc at + length hashes ≡ suc (suc (at + k)) = omega (arith, count) in
      let scanning : IsScanning at (asked hashes s) = record {
        sound = record {
          valid = sound.valid;
          consistent = sound.consistent;
          small = sound.small;
          some_batch = sound.some_batch;
        };
        k = k;
        left = ap (λ z. z +ℤ pos (length hashes)) left ∙ count_up (length hashes) ∙ ap pos count;
        room = omega arith;
        low = low;
        has_metadata = m;
      } in
      (
        asked hashes s,
        request_blocks-asks at s sound.valid (omega arith) sound.small,
        refl,
        refl,
        (
          scanning,
          record {
            asks = outcoming_message (get_data (map block hashes)) ∷ [];
            sent = refl;
            blocks =
                sym (take-drop-length s.batch_size (drop (suc at) s.headers_cache.main_chain))
                ∙ ap (λ l. hashes ++ l)
                    (drop-drop (length hashes) (suc at) s.headers_cache.main_chain
                      ∙ ap (λ n. drop n s.headers_cache.main_chain) reached)
                ∙ ap (λ l. l ++ unasked at (asked hashes s) scanning)
                    (sym (block_hashes-map hashes)
                      ∙ sym (append-nil (block_hashes (map block hashes))));
          },
        ),
      )

  -- A block of the main chain is processed and counted.
  on_new_block-counts :
      (at : ℕ) (arrived : Block H) (s : Indexer H)
      → IsSound s
      → get_elem? s.headers_cache.main_chain at ≡ some (block_hash arrived.header)
      → (db : VaultTables) × (events : List (Event H)) × IsConsistent db
        × (on_new_block arrived s ≡ (
            if leb_ℤ (s.batch_left -ℤ pos 1) (pos 0)
            then finish_batch (count_block at (scanned db events s))
            else ok (count_block at (scanned db events s))))
  unfolding on_new_block get_header count_block
  on_new_block-counts at arrived s sound on_main =
      let (r, found, level, flag) =
        path-entry s.headers_cache.headers zero_hash 0 s.headers_cache.main_chain at
          sound.valid.path on_main in
      let (db, events, run, scan) = process_block-Scans arrived r.height s sound.consistent in
      let height : r.height ≡ at = omega (arith, level) in
      let next : ℕ → Result (Indexer H) = λ n.
        if leb_ℤ (s.batch_left -ℤ pos 1) (pos 0)
        then finish_batch (count_block n (scanned db events s))
        else ok (count_block n (scanned db events s)) in
      (db, events, scan.consistent, rw (found, run) (ap next height))

  abbrev pub After : ℕ → List ℕ → Indexer H → Result (Indexer H) → Type 0
  After at blocks s run =
      (u : Indexer H) × (run ≡ ok u)
      × (u.headers_cache ≡ s.headers_cache)
      × (((scanning : IsScanning at u) × Asks blocks s.sent u.sent (unasked at u scanning))
          ⊎ ((at ≡ s.headers_cache.height) × IsCaughtUp u × Asks blocks s.sent u.sent []))

  -- The height that was reached is written down.
  abbrev noted : DbMetadata → Indexer H → Indexer H
  noted m s = record s {
    database = record s.database {
      metadata = some (record m { scanned_height = s.max_scanned_height });
    };
  }

  noted-IsSound : (m : DbMetadata) (s : Indexer H) → IsSound s → IsSound (noted m s)
  noted-IsSound m s sound = record {
    valid = sound.valid;
    consistent = sound.consistent;
    small = sound.small;
    some_batch = sound.some_batch;
  }

  finish_batch-notes :
      (m : DbMetadata) (s : Indexer H)
      → s.database.metadata ≡ some m
      → finish_batch s ≡ (
          if ltb s.max_scanned_height s.headers_cache.height
          then request_blocks s.max_scanned_height (noted m s)
          else ok (noted m s))
  unfolding finish_batch set_scanned_height load_metada store_metadata get_current_height
  finish_batch-notes m s found = rw found refl

  finish_batch-After :
      (s : Indexer H)
      → IsSound s
      → s.batch_left ≡ pos 0
      → s.max_scanned_height ≤ s.headers_cache.height
      → (m : DbMetadata) × (s.database.metadata ≡ some m)
      → After s.max_scanned_height
          (drop (suc s.max_scanned_height) s.headers_cache.main_chain)
          s
          (finish_batch s)
  finish_batch-After s sound left le (m, found) =
      elim (dec_lt s.max_scanned_height s.headers_cache.height) [
        | yes below ↦
            (let (t, run, _, same, (scanning, asks)) =
                request_blocks-IsScanning s.max_scanned_height (noted m s) (noted-IsSound m s sound)
                  left below (omega arith)
                  (record m { scanned_height = s.max_scanned_height }, refl) in
              (
                t,
                finish_batch-notes m s found
                    ∙ rw (lt→ltb s.max_scanned_height s.headers_cache.height below) run,
                same,
                inl (scanning, asks),
              ))
        | no above ↦
            (let top : s.max_scanned_height ≡ s.headers_cache.height = omega arith in
              (
                noted m s,
                finish_batch-notes m s found
                    ∙ rw (ge→ltb s.max_scanned_height s.headers_cache.height (omega arith)) refl,
                refl,
                inr (
                  top,
                  record {
                    sound = noted-IsSound m s sound;
                    left = left;
                    says = (record m { scanned_height = s.max_scanned_height }, refl, top);
                  },
                  Asks-none _ _ s.sent (
                      drop-all (suc s.max_scanned_height) s.headers_cache.main_chain
                        (omega (arith, top, sound.valid.size))),
                ),
              ))
      ]

  counted-After :
      (k : ℕ) (s : Indexer H)
      → IsSound s
      → s.batch_left ≡ pos k
      → s.max_scanned_height + k ≤ s.headers_cache.height
      → (m : DbMetadata) × (s.database.metadata ≡ some m)
      → After s.max_scanned_height
          (drop (suc (s.max_scanned_height + k)) s.headers_cache.main_chain)
          s
          (if leb_ℤ s.batch_left (pos 0) then finish_batch s else ok s)
  counted-After zero s sound left room m =
      let (u, run, same, rest) =
        subst
          (λ n.
            After s.max_scanned_height (drop (suc n) s.headers_cache.main_chain) s (finish_batch s))
          (omega arith) (finish_batch-After s sound left (omega arith) m) in
      (u, ap (λ z. if leb_ℤ z (pos 0) then finish_batch s else ok s) left ∙ run, same, rest)
  counted-After (suc k) s sound left room m =
      let far : s.max_scanned_height + suc k ≡ suc (s.max_scanned_height + k) = omega arith in
      (
        s,
        ap (λ z. if leb_ℤ z (pos 0) then finish_batch s else ok s) left
            ∙ ap (λ t. if t then finish_batch s else ok s) (some_left k),
        refl,
        inl (
          record {
            sound = sound;
            k = k;
            left = left;
            room = room;
            low = omega arith;
            has_metadata = m;
          },
          Asks-none _ _ s.sent (ap (λ n. drop (suc n) s.headers_cache.main_chain) far),
        ),
      )

  -- A block of the main chain, the next one to scan, is scanned; then the next is to come, or the
  -- scan has caught up.
  pub on_new_block-After :
      (at : ℕ) (arrived : Block H) (s : Indexer H)
      → (scanning : IsScanning at s)
      → get_elem? s.headers_cache.main_chain (suc at) ≡ some (block_hash arrived.header)
      → After (suc at) (unasked at s scanning) s (on_new_block arrived s)
  unfolding count_block
  on_new_block-After at arrived s scanning on_main =
      let (db, events, k, run) = on_new_block-counts (suc at) arrived s scanning.sound on_main in
      let t : Indexer H = count_block (suc at) (scanned db events s) in
      let reached : t.max_scanned_height ≡ suc at = omega (arith, scanning.low) in
      let (u, ran, same, rest) =
        subst
          (λ n.
            After n (drop (suc (n + scanning.k)) s.headers_cache.main_chain) t
              (if leb_ℤ t.batch_left (pos 0) then finish_batch t else ok t))
          reached
          (counted-After scanning.k t
            (record {
              valid = scanning.sound.valid;
              consistent = k;
              small = scanning.sound.small;
              some_batch = scanning.sound.some_batch;
            })
            (ap (λ z. z -ℤ pos 1) scanning.left ∙ count_down scanning.k)
            (omega (arith, scanning.room, reached)) scanning.has_metadata) in
      let far : suc at + scanning.k ≡ suc (at + scanning.k) = omega arith in
      subst
        (λ n. After (suc at) (drop (suc n) s.headers_cache.main_chain) s (on_new_block arrived s))
        far (u, run ∙ ran, same, rest)

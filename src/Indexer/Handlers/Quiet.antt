-- ===== src/Indexer/Handlers/Quiet.antt =====
-- What the reactions to other messages than blocks leave alone
-- (vault-indexer/src/indexer/mod.rs).
use mathlib.Core.Path.{subst}
use mutinynet_indexer.Common.{
  ℕ, ◌≡◌, refl, ap, ◌∙◌, Bool, true, false, List, [], ◌∷◌, ◌++◌, length, ◌==◌, inl, inr, ◌⊎◌,
  if◌then◌else◌,
}
use mutinynet_indexer.Common.Int.{pos, leb_ℤ}
use mutinynet_indexer.Cache.Block.{BlockHeader}
use mutinynet_indexer.Cache.Error as Cache
use mutinynet_indexer.Cache.Headers.{get_header}
use mutinynet_indexer.Cache.Headers.Requests.{make_get_headers, make_get_blocks}
use mutinynet_indexer.Cache.Headers.Storage.{store}
use mutinynet_indexer.Cache.Headers.Sync.{update_longest_chain}
use mutinynet_indexer.Db.Header.{HeaderRecord}
use mutinynet_indexer.Db.Metadata.{get_scanned_height}
use mutinynet_indexer.Indexer.{Indexer, send}
use mutinynet_indexer.Indexer.Error.{
  Result, ok, err, ok-injective, from_cache, from_database, >>=-eq-ok, ◌>>=◌,
}
use mutinynet_indexer.Indexer.Event.{Event, outcoming_message}
use mutinynet_indexer.Indexer.Handlers.{
  request_headers, request_blocks, request_next, take_headers, on_handshake, on_new_headers,
  on_new_invs, ask_unknown, max_headers_per_msg,
}
use mutinynet_indexer.P2p.{GetHeadersMessage, get_data, get_headers}
use mutinynet_indexer.P2p.Blockdata as Inventory
use mutinynet_indexer.P2p.Blockdata.{Inventory as Entry}

-- The requests for blocks among the events.
unfoldable pub requests_of : {H : Type 0} → List (Event H) → List (List Entry)
requests_of [] = []
requests_of (outcoming_message (get_data invs) ∷ events) = invs ∷ requests_of events
requests_of (_ ∷ events) = requests_of events

-- The ways through two tests.
pub if-cases :
    {A : Type 0} (t l : Bool) (x y z : Result A) {a : A}
    → (if t then x else if l then y else z) ≡ ok a
    → (x ≡ ok a) ⊎ (((l ≡ true) × (y ≡ ok a)) ⊎ (z ≡ ok a))
if-cases true l x y z h = inl h
if-cases false true x y z h = inr (inl (refl, h))
if-cases false false x y z h = inr (inr h)

module _ {H : Type 0} where
  -- The vault tables stay, and nothing is broadcast.
  pub record Keeps (s t : Indexer H) : Type 0 where
    pub vaults : t.database.vaults ≡ s.database.vaults
    pub bus : t.events_bus ≡ s.events_bus

  -- No blocks are asked for, and none are counted.
  pub record IsQuiet (s t : Indexer H) : Type 0 where
    pub left : t.batch_left ≡ s.batch_left
    pub requests : requests_of t.sent ≡ requests_of s.sent

  pub Keeps-trans : {s t u : Indexer H} → Keeps s t → Keeps t u → Keeps s u
  Keeps-trans p q = record { vaults = q.vaults ∙ p.vaults; bus = q.bus ∙ p.bus }

  pub IsQuiet-trans : {s t u : Indexer H} → IsQuiet s t → IsQuiet t u → IsQuiet s u
  IsQuiet-trans p q = record { left = q.left ∙ p.left; requests = q.requests ∙ p.requests }

  pub Keeps-refl : (s : Indexer H) → Keeps s s
  Keeps-refl s = record { vaults = refl; bus = refl }

  pub IsQuiet-refl : (s : Indexer H) → IsQuiet s s
  IsQuiet-refl s = record { left = refl; requests = refl }

  -- An event that is no request adds none.
  pub requests_of-snoc :
      (events : List (Event H)) (event : Event H)
      → requests_of (event ∷ []) ≡ []
      → requests_of (events ++ (event ∷ [])) ≡ requests_of events
  unfolding requests_of
  requests_of-snoc [] event h = h
  requests_of-snoc (outcoming_message (get_data invs) ∷ events) event h =
      ap (λ rest. invs ∷ rest) (requests_of-snoc events event h)
  requests_of-snoc (_ ∷ events) event h = requests_of-snoc events event h

  pub request_headers-sends :
      (s : Indexer H) {t : Indexer H}
      → request_headers s ≡ ok t
      → (msg : GetHeadersMessage) × (send (outcoming_message (get_headers msg)) s ≡ t)
  unfolding request_headers
  request_headers-sends s h =
      let (msg, ran, last) =
        >>=-eq-ok (from_cache (make_get_headers s.headers_cache))
          (λ msg. ok (send (outcoming_message (get_headers msg)) s)) h in
      (msg, ok-injective last)

  pub request_headers-IsQuiet :
      (s : Indexer H) {t : Indexer H} → request_headers s ≡ ok t → Keeps s t × IsQuiet s t
  unfolding send requests_of
  request_headers-IsQuiet s h =
      let (msg, same) = request_headers-sends s h in
      subst (λ t. Keeps s t × IsQuiet s t) same
        (
          record { vaults = refl; bus = refl },
          record {
            left = refl;
            requests = requests_of-snoc s.sent (outcoming_message (get_headers msg)) refl;
          },
        )

  pub request_blocks-Keeps :
      (scanned : ℕ) (s : Indexer H) {t : Indexer H} → request_blocks scanned s ≡ ok t → Keeps s t
  unfolding request_blocks send
  request_blocks-Keeps scanned s h =
      let (msg, ran, last) =
        >>=-eq-ok (from_cache (make_get_blocks _ s.batch_size s.headers_cache)) _ h in
      subst (λ t. Keeps s t) (ok-injective last) (record { vaults = refl; bus = refl })

  ask_unknown-IsQuiet :
      (r : Cache.Result (HeaderRecord H)) (s : Indexer H) {t : Indexer H}
      → ask_unknown r s ≡ ok t
      → Keeps s t × IsQuiet s t
  unfolding ask_unknown
  ask_unknown-IsQuiet (err _) s h = request_headers-IsQuiet s h
  ask_unknown-IsQuiet (ok _) s h =
      subst (λ t. Keeps s t × IsQuiet s t) (ok-injective h) (Keeps-refl s, IsQuiet-refl s)

  pub on_new_invs-IsQuiet :
      (invs : List Entry) (s : Indexer H) {t : Indexer H}
      → on_new_invs invs s ≡ ok t
      → Keeps s t × IsQuiet s t
  unfolding on_new_invs
  on_new_invs-IsQuiet [] s h =
      subst (λ t. Keeps s t × IsQuiet s t) (ok-injective h) (Keeps-refl s, IsQuiet-refl s)
  on_new_invs-IsQuiet (Inventory.other ∷ invs) s h = on_new_invs-IsQuiet invs s h
  on_new_invs-IsQuiet (Inventory.block hash ∷ invs) s h =
      let (u, ran, rest) =
        >>=-eq-ok (ask_unknown (get_header hash s.headers_cache) s) (on_new_invs invs) h in
      let (k, q) = ask_unknown-IsQuiet (get_header hash s.headers_cache) s ran in
      let (k', q') = on_new_invs-IsQuiet invs u rest in (Keeps-trans k k', IsQuiet-trans q q')

  pub on_handshake-IsQuiet :
      (height : ℕ) (s : Indexer H) {t : Indexer H}
      → on_handshake height s ≡ ok t
      → Keeps s t × IsQuiet s t
  unfolding on_handshake
  on_handshake-IsQuiet height s h =
      let s' : Indexer H = record s { node_connected = true; remote_height = height } in
      let (k, q) = request_headers-IsQuiet s' h in
      (record { vaults = k.vaults; bus = k.bus }, record { left = q.left; requests = q.requests })

  unchanged-IsQuiet :
      (s : Indexer H) {t : Indexer H}
      → ◌≡◌ {A = Result (Indexer H)} (ok s) (ok t)
      → Keeps s t × IsQuiet s t
  unchanged-IsQuiet s h =
      subst (λ t. Keeps s t × IsQuiet s t) (ok-injective h) (Keeps-refl s, IsQuiet-refl s)

  -- The branch of `request_next` that asks for blocks.
  abbrev pub first_blocks : Indexer H → Result (Indexer H)
  first_blocks s =
      from_database (get_scanned_height s.database.metadata) >>= (λ h. request_blocks h s)

  pub request_next-cases :
      (count : ℕ) (s : Indexer H) {t : Indexer H}
      → request_next count s ≡ ok t
      → (Keeps s t × IsQuiet s t) ⊎ ((leb_ℤ s.batch_left (pos 0) ≡ true) × (first_blocks s ≡ ok t))
  unfolding request_next
  request_next-cases count s h =
      elim (if-cases (count == max_headers_per_msg) (leb_ℤ s.batch_left (pos 0)) (request_headers s)
        (first_blocks s) (ok s) h) [
          | inl full ↦ inl (request_headers-IsQuiet s full)
          | inr (inl blocks) ↦ inr blocks
          | inr (inr nothing) ↦ inl (unchanged-IsQuiet s nothing)
        ]

  request_next-Keeps :
      (count : ℕ) (s : Indexer H) {t : Indexer H} → request_next count s ≡ ok t → Keeps s t
  request_next-Keeps count s h = elim (request_next-cases count s h) [
    | inl (k, q) ↦ k
    | inr (none_left, run) ↦
        (let (scanned, ran, rest) =
            >>=-eq-ok (from_database (get_scanned_height s.database.metadata))
              (λ scanned. request_blocks scanned s) run in
          request_blocks-Keeps scanned s rest)
  ]

  request_next-IsQuiet :
      (count : ℕ) (s : Indexer H) {t : Indexer H}
      → leb_ℤ s.batch_left (pos 0) ≡ false
      → request_next count s ≡ ok t
      → IsQuiet s t
  request_next-IsQuiet count s waiting h = elim (request_next-cases count s h) [
    | inl (k, q) ↦ q
    | inr (none_left, run) ↦ cc
  ]

  take_headers-IsQuiet :
      ⦃b : BlockHeader H⦄ (fuel : ℕ) (hs : List H) (s : Indexer H) {t : Indexer H}
      → take_headers fuel hs s ≡ ok t
      → Keeps s t × IsQuiet s t
  unfolding take_headers
  take_headers-IsQuiet fuel hs s h =
      let (cache, ran, h') =
        >>=-eq-ok (from_cache (update_longest_chain fuel hs s.headers_cache)) _ h in
      let (stored, ran', h'') =
        >>=-eq-ok (from_cache (store cache s.database.headers s.database.metadata)) _ h' in
      subst (λ t. Keeps s t × IsQuiet s t) (ok-injective h'')
        (record { vaults = refl; bus = refl }, record { left = refl; requests = refl })

  pub on_new_headers-Keeps :
      ⦃b : BlockHeader H⦄ (fuel : ℕ) (hs : List H) (s : Indexer H) {t : Indexer H}
      → on_new_headers fuel hs s ≡ ok t
      → Keeps s t
  unfolding on_new_headers
  on_new_headers-Keeps fuel hs s h =
      let (u, ran, rest) = >>=-eq-ok (take_headers fuel hs s) (request_next (length hs)) h in
      Keeps-trans (take_headers-IsQuiet fuel hs s ran).0 (request_next-Keeps (length hs) u rest)

  pub on_new_headers-IsQuiet :
      ⦃b : BlockHeader H⦄ (fuel : ℕ) (hs : List H) (s : Indexer H) {t : Indexer H}
      → leb_ℤ s.batch_left (pos 0) ≡ false
      → on_new_headers fuel hs s ≡ ok t
      → IsQuiet s t
  unfolding on_new_headers
  on_new_headers-IsQuiet fuel hs s waiting h =
      let (u, ran, rest) = >>=-eq-ok (take_headers fuel hs s) (request_next (length hs)) h in
      let q = (take_headers-IsQuiet fuel hs s ran).1 in
      IsQuiet-trans q
        (request_next-IsQuiet (length hs) u (ap (λ z. leb_ℤ z (pos 0)) q.left ∙ waiting) rest)

-- ===== src/Indexer/Run/Announce.antt =====
-- What is broadcast in a run is what the run has stored (vault-indexer/src/indexer/mod.rs).
use mathlib.Core.Path.{subst}
use mathlib.Core.List.{append_assoc, append-nil}
use mutinynet_indexer.Common.{ℕ, ◌≡◌, refl, sym, ap, ◌∙◌, List, [], ◌∷◌, ◌++◌, ltb, inl, inr}
use mutinynet_indexer.Common.Int.{pos, leb_ℤ}
use mutinynet_indexer.Cache.Block.{BlockHeader, block_hash}
use mutinynet_indexer.Cache.Headers.{get_header, get_current_height}
use mutinynet_indexer.Db.Metadata.{set_scanned_height}
use mutinynet_indexer.Db.Vault.Invariant.{IsConsistent}
use mutinynet_indexer.Indexer.{Indexer, send}
use mutinynet_indexer.Indexer.Blocks.{process_block}
use mutinynet_indexer.Indexer.Blocks.Rows.{IsScan, IsScan-nothing, IsScan-append, scanned}
use mutinynet_indexer.Indexer.Blocks.Scan.{process_block-Scans}
use mutinynet_indexer.Indexer.Error.{
  Result, ok, err, ok-injective, from_cache, from_database, >>=-eq-ok,
}
use mutinynet_indexer.Indexer.Event.{Event, handshaked, disconnected, incoming_message}
use mutinynet_indexer.Indexer.Handlers.{on_new_block, count_block, finish_batch, request_blocks}
use mutinynet_indexer.Indexer.Handlers.Quiet.{
  Keeps, Keeps-refl, Keeps-trans, request_blocks-Keeps, on_new_invs-IsQuiet, on_handshake-IsQuiet,
  on_new_headers-Keeps,
}
use mutinynet_indexer.Common.Outcome.{if-either}
use mutinynet_indexer.Indexer.Run.{
  Round, Progress, running, finished, worker_finished, worker_panicked, timeout, bus_disconnected,
  received, on_message, on_event, run_loop,
}
use mutinynet_indexer.P2p.{Block, NetworkMessage, ping, headers, block, inv}
use mutinynet_indexer.Vault.Bitcoin.{Script}
use mutinynet_indexer.Vault.Runes.{Ordinals}

module _ {H : Type 0} where
  -- New events were broadcast, and the tables have grown by just what they announce.
  abbrev pub Announces : Indexer H → Indexer H → Type 0
  Announces s t =
      (events : List (Event H)) × (t.events_bus ≡ s.events_bus ++ events)
      × IsScan s.database.vaults t.database.vaults events

  Announces-refl : (s : Indexer H) → IsConsistent s.database.vaults → Announces s s
  Announces-refl s k = ([], sym (append-nil s.events_bus), IsScan-nothing s.database.vaults k)

  Announces-trans : (s t u : Indexer H) → Announces s t → Announces t u → Announces s u
  Announces-trans s t u (es, bus, scan) (fs, bus', scan') = (
    es ++ fs,
    bus' ∙ ap (λ l. l ++ fs) bus ∙ append_assoc s.events_bus es fs,
    IsScan-append s.database.vaults t.database.vaults u.database.vaults es fs scan scan',
  )

  Keeps-Announces : (s t : Indexer H) → IsConsistent s.database.vaults → Keeps s t → Announces s t
  Keeps-Announces s t k keeps = (
    [],
    keeps.bus ∙ sym (append-nil s.events_bus),
    subst (λ db. IsScan {H = H} s.database.vaults db []) (sym keeps.vaults)
        (IsScan-nothing s.database.vaults k),
  )

  same-Keeps :
      (s : Indexer H) {t : Indexer H} → ◌≡◌ {A = Result (Indexer H)} (ok s) (ok t) → Keeps s t
  same-Keeps s h = subst (λ t. Keeps s t) (ok-injective h) (Keeps-refl s)

  finish_batch-Keeps : (s : Indexer H) {t : Indexer H} → finish_batch s ≡ ok t → Keeps s t
  unfolding finish_batch
  finish_batch-Keeps s h =
      let (metadata, ran, rest) =
        >>=-eq-ok (from_database (set_scanned_height s.max_scanned_height s.database.metadata)) _
          h in
      let s' : Indexer H = record s { database = record s.database { metadata = metadata } } in
      let k : Keeps s s' = record { vaults = refl; bus = refl } in
      elim (if-either (ltb s.max_scanned_height (get_current_height s.headers_cache))
        (request_blocks s.max_scanned_height s') (ok s') rest) [
          | inl asks ↦ Keeps-trans k (request_blocks-Keeps s.max_scanned_height s' asks)
          | inr done ↦ Keeps-trans k (same-Keeps s' done)
        ]

module _ {H : Type 0} ⦃b : BlockHeader H⦄ ⦃c : Script⦄ ⦃o : Ordinals⦄ where
  on_new_block-Announces :
      (arrived : Block H) (s t : Indexer H)
      → IsConsistent s.database.vaults
      → on_new_block arrived s ≡ ok t
      → Announces s t
  unfolding on_new_block count_block
  on_new_block-Announces arrived s t k h =
      let (r, ran, h') =
        >>=-eq-ok (from_cache (get_header (block_hash arrived.header) s.headers_cache)) _ h in
      let (processed, ran', h'') = >>=-eq-ok (process_block arrived r.height s) _ h' in
      let (db, events, run, scan) = process_block-Scans arrived r.height s k in
      let same : scanned db events s ≡ processed = ok-injective (sym run ∙ ran') in
      let counted : Indexer H = count_block r.height processed in
      let keeps : Keeps counted t =
        elim (if-either (leb_ℤ counted.batch_left (pos 0)) (finish_batch counted) (ok counted)
          h'') [
            | inl ends ↦ finish_batch-Keeps counted ends
            | inr goes_on ↦ same-Keeps counted goes_on
          ] in
      (
        events,
        keeps.bus ∙ ap (λ p. p.events_bus) (sym same),
        subst (λ vaults. IsScan s.database.vaults vaults events)
            (ap (λ p. p.database.vaults) same ∙ sym keeps.vaults) scan,
      )

  on_message-Announces :
      (fuel : ℕ) (msg : NetworkMessage H) (s t : Indexer H)
      → IsConsistent s.database.vaults
      → on_message fuel msg s ≡ ok t
      → Announces s t
  unfolding on_message send
  on_message-Announces fuel (ping nonce) s t k h =
      subst (Announces s) (ok-injective h) (Announces-refl s k)
  on_message-Announces fuel (headers hs) s t k h =
      Keeps-Announces s t k (on_new_headers-Keeps fuel hs s h)
  on_message-Announces fuel (block arrived) s t k h = on_new_block-Announces arrived s t k h
  on_message-Announces fuel (inv invs) s t k h =
      Keeps-Announces s t k (on_new_invs-IsQuiet invs s h).0
  on_message-Announces fuel _ s t k h = Keeps-Announces s t k (same-Keeps s h)

  pub on_event-Announces :
      (fuel : ℕ) (event : Event H) (s t : Indexer H)
      → IsConsistent s.database.vaults
      → on_event fuel event s ≡ ok t
      → Announces s t
  unfolding on_event
  on_event-Announces fuel (handshaked height) s t k h =
      Keeps-Announces s t k (on_handshake-IsQuiet height s h).0
  on_event-Announces fuel disconnected s t k h =
      subst (Announces s) (ok-injective h) (Announces-refl s k)
  on_event-Announces fuel (incoming_message msg) s t k h = on_message-Announces fuel msg s t k h
  on_event-Announces fuel _ s t k h = Keeps-Announces s t k (same-Keeps s h)

  -- The state that a run has come to.
  abbrev pub state_of : Progress H → Indexer H
  state_of (running s) = s
  state_of (finished s) = s

  -- Over any rounds of the loop that do not end in an error, consistent vault tables stay
  -- consistent, and they grow by just what is broadcast: in order, the new rows of vault
  -- transactions are those that the new events announce, and the new UNIT transactions have the
  -- ids that are announced.
  pub run_loop-Announces :
      (fuel : ℕ) (rounds : List (Round H)) (s : Indexer H) (p : Progress H)
      → IsConsistent s.database.vaults
      → run_loop fuel rounds s ≡ ok p
      → Announces s (state_of p)
  unfolding run_loop send
  run_loop-Announces fuel [] s p k h =
      subst (λ q. Announces s (state_of q)) (ok-injective h) (Announces-refl s k)
  run_loop-Announces fuel (worker_finished (ok _) ∷ rounds) s p k h =
      subst (λ q. Announces s (state_of q)) (ok-injective h) (Announces-refl s k)
  run_loop-Announces fuel (worker_finished (err _) ∷ rounds) s p k h = cc
  run_loop-Announces fuel (worker_panicked ∷ rounds) s p k h = cc
  run_loop-Announces fuel (bus_disconnected ∷ rounds) s p k h = cc
  run_loop-Announces fuel (timeout ∷ rounds) s p k h = run_loop-Announces fuel rounds s p k h
  run_loop-Announces fuel (received event ∷ rounds) s p k h =
      let (t, ran, rest) = >>=-eq-ok (on_event fuel event s) (run_loop fuel rounds) h in
      let (es, bus, scan) = on_event-Announces fuel event s t k ran in
      Announces-trans s t (state_of p) (es, bus, scan)
        (run_loop-Announces fuel rounds t p scan.consistent rest)

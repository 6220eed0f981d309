-- ===== src/Indexer/Run/Stall.antt =====
-- An indexer that expects blocks asks for none (vault-indexer/src/indexer/mod.rs).
use mutinynet_indexer.Common.{ℕ, ◌≡◌, refl, ap, ◌∙◌, Bool, true, false, not, ◌&&◌, List, [], ◌∷◌}
use mathlib.Core.Path.{subst}
use mutinynet_indexer.Common.Int.{pos, leb_ℤ}
use mutinynet_indexer.Cache.Block.{BlockHeader}
use mutinynet_indexer.Indexer.{Indexer, send}
use mutinynet_indexer.Indexer.Error.{Result, ok, err, ok-injective, >>=-eq-ok}
use mutinynet_indexer.Indexer.Event.{
  Event, handshaked, disconnected, incoming_message, outcoming_message,
}
use mutinynet_indexer.Indexer.Handlers.Quiet.{
  IsQuiet, IsQuiet-refl, IsQuiet-trans, requests_of, requests_of-snoc, on_new_invs-IsQuiet,
  on_handshake-IsQuiet, on_new_headers-IsQuiet,
}
use mutinynet_indexer.Indexer.Run.{
  Round, running, worker_finished, worker_panicked, timeout, bus_disconnected, received, on_message,
  on_event, run_loop,
}
use mutinynet_indexer.P2p.{NetworkMessage, ping, pong, headers, block, inv}
use mutinynet_indexer.Vault.Bitcoin.{Script}
use mutinynet_indexer.Vault.Runes.{Ordinals}

unfoldable pub brings_block : {H : Type 0} → Round H → Bool
brings_block (received (incoming_message (block _))) = true
brings_block _ = false

unfoldable pub bring_no_block : {H : Type 0} → List (Round H) → Bool
unfolding brings_block
bring_no_block [] = true
bring_no_block (round ∷ rounds) = not (brings_block round) && bring_no_block rounds

module _ {H : Type 0} ⦃b : BlockHeader H⦄ ⦃c : Script⦄ ⦃o : Ordinals⦄ where
  same-IsQuiet :
      (s : Indexer H) {t : Indexer H} → ◌≡◌ {A = Result (Indexer H)} (ok s) (ok t) → IsQuiet s t
  same-IsQuiet s h = subst (λ t. IsQuiet s t) (ok-injective h) (IsQuiet-refl s)

  on_message-IsQuiet :
      (fuel : ℕ) (msg : NetworkMessage H) (s : Indexer H) {t : Indexer H}
      → leb_ℤ s.batch_left (pos 0) ≡ false
      → brings_block (received (incoming_message msg)) ≡ false
      → on_message fuel msg s ≡ ok t
      → IsQuiet s t
  unfolding on_message brings_block send
  on_message-IsQuiet fuel (ping nonce) s waiting other h =
      subst (λ t. IsQuiet s t) (ok-injective h)
        (record {
          left = refl;
          requests =
              requests_of-snoc s.sent (outcoming_message (pong nonce)) (unfold requests_of in refl);
        })
  on_message-IsQuiet fuel (headers hs) s waiting other h =
      on_new_headers-IsQuiet fuel hs s waiting h
  on_message-IsQuiet fuel (block arrived) s waiting other h = cc
  on_message-IsQuiet fuel (inv invs) s waiting other h = (on_new_invs-IsQuiet invs s h).1
  on_message-IsQuiet fuel _ s waiting other h = same-IsQuiet s h

  on_event-IsQuiet :
      (fuel : ℕ) (event : Event H) (s : Indexer H) {t : Indexer H}
      → leb_ℤ s.batch_left (pos 0) ≡ false
      → brings_block (received event) ≡ false
      → on_event fuel event s ≡ ok t
      → IsQuiet s t
  unfolding on_event
  on_event-IsQuiet fuel (handshaked height) s waiting other h = (on_handshake-IsQuiet height s h).1
  on_event-IsQuiet fuel disconnected s waiting other h =
      subst (λ t. IsQuiet s t) (ok-injective h) (record { left = refl; requests = refl })
  on_event-IsQuiet fuel (incoming_message msg) s waiting other h =
      on_message-IsQuiet fuel msg s waiting other h
  on_event-IsQuiet fuel _ s waiting other h = same-IsQuiet s h

  -- While blocks of a batch are still expected, no round of the loop but the arrival of a block
  -- asks for blocks, or changes how many are expected: after a disconnection, too, the next
  -- handshake and the headers that follow it do not.
  pub run_loop-IsQuiet :
      (fuel : ℕ) (rounds : List (Round H)) (s u : Indexer H)
      → leb_ℤ s.batch_left (pos 0) ≡ false
      → bring_no_block rounds ≡ true
      → run_loop fuel rounds s ≡ ok (running u)
      → IsQuiet s u
  unfolding run_loop bring_no_block
  run_loop-IsQuiet fuel [] s u waiting none h =
      subst (λ t. IsQuiet s t) (running-injective (ok-injective h)) (IsQuiet-refl s)
    where
      running-injective : {s t : Indexer H} → running s ≡ running t → s ≡ t
      running-injective e = cc
  run_loop-IsQuiet fuel (worker_finished (ok _) ∷ rounds) s u waiting none h = cc
  run_loop-IsQuiet fuel (worker_finished (err _) ∷ rounds) s u waiting none h = cc
  run_loop-IsQuiet fuel (worker_panicked ∷ rounds) s u waiting none h = cc
  run_loop-IsQuiet fuel (bus_disconnected ∷ rounds) s u waiting none h = cc
  run_loop-IsQuiet fuel (timeout ∷ rounds) s u waiting none h =
      run_loop-IsQuiet fuel rounds s u waiting none h
  run_loop-IsQuiet fuel (received event ∷ rounds) s u waiting none h =
      let (t, ran, rest) = >>=-eq-ok (on_event fuel event s) (run_loop fuel rounds) h in
      let (other, others) = both (brings_block (received event)) (bring_no_block rounds) none in
      let q = on_event-IsQuiet fuel event s waiting other ran in
      IsQuiet-trans q
        (run_loop-IsQuiet fuel rounds t u (ap (λ z. leb_ℤ z (pos 0)) q.left ∙ waiting) others rest)
    where
      both : (x y : Bool) → (not x && y) ≡ true → (x ≡ false) × (y ≡ true)
      both false y e = (refl, e)
      both true y e = cc

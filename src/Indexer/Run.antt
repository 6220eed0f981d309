-- ===== src/Indexer/Run.antt =====
-- The loop of the indexer (vault-indexer/src/indexer/mod.rs, `run`).
pub mod CatchUp
pub mod Deliver
pub mod Stall
pub mod Announce
pub mod Reach
pub mod Restart
pub mod Rebuild
use mutinynet_indexer.Common.{ℕ, Bool, true, false, List, [], ◌∷◌}
use mutinynet_indexer.Common.Int.{pos}
use mutinynet_indexer.Cache.Block.{BlockHeader}
use mutinynet_indexer.Db.Metadata.{set_scanned_height}
use mutinynet_indexer.Indexer.{Indexer, send}
use mutinynet_indexer.Indexer.Error.{
  Result, ok, err, event_bus_recv, node, panic, from_database, ◌>>=◌,
}
use mutinynet_indexer.Indexer.Event.{
  Event, handshaked, disconnected, incoming_message, outcoming_message, termination,
}
use mutinynet_indexer.Indexer.Handlers.{on_handshake, on_new_headers, on_new_block, on_new_invs}
use mutinynet_indexer.Indexer.Node.Error as Node
use mutinynet_indexer.P2p.{NetworkMessage, ping, pong, headers, block, inv}
use mutinynet_indexer.Vault.Bitcoin.{Script}
use mutinynet_indexer.Vault.Runes.{Ordinals}

-- What a round of the loop meets: the node worker has ended, or the receiver of events has
-- something to say.
pub data Round (H : Type 0) : Type 0 where
  worker_finished : Node.Result (Unit {0}) → Round H
  worker_panicked : Round H
  timeout : Round H
  bus_disconnected : Round H
  received : Event H → Round H

-- What has become of a run: the loop goes on, or was left without an error.
pub data Progress (H : Type 0) : Type 0 where
  running : Indexer H → Progress H
  finished : Indexer H → Progress H

module _ {H : Type 0} ⦃b : BlockHeader H⦄ ⦃c : Script⦄ ⦃o : Ordinals⦄ where
  unfoldable pub on_message : ℕ → NetworkMessage H → Indexer H → Result (Indexer H)
  unfolding on_new_headers on_new_block on_new_invs send
  on_message fuel (ping nonce) s = ok (send (outcoming_message (pong nonce)) s)
  on_message fuel (headers hs) s = on_new_headers fuel hs s
  on_message fuel (block arrived) s = on_new_block arrived s
  on_message fuel (inv invs) s = on_new_invs invs s
  on_message fuel _ s = ok s

  unfoldable pub on_event : ℕ → Event H → Indexer H → Result (Indexer H)
  unfolding on_handshake on_message
  on_event fuel (handshaked remote_height) s = on_handshake remote_height s
  on_event fuel disconnected s = ok (record s { node_connected = false })
  on_event fuel (incoming_message msg) s = on_message fuel msg s
  on_event fuel _ s = ok s

  -- The loop, a round after another, for the fuel of the cache.
  unfoldable pub run_loop : ℕ → List (Round H) → Indexer H → Result (Progress H)
  unfolding on_event
  run_loop fuel [] s = ok (running s)
  run_loop fuel (worker_finished (ok _) ∷ rounds) s = ok (finished (send termination s))
  run_loop fuel (worker_finished (err e) ∷ rounds) s = err (node e)
  run_loop fuel (worker_panicked ∷ rounds) s = err panic
  run_loop fuel (timeout ∷ rounds) s = run_loop fuel rounds s
  run_loop fuel (bus_disconnected ∷ rounds) s = err event_bus_recv
  run_loop fuel (received event ∷ rounds) s = do s' ← on_event fuel event s; run_loop fuel rounds s'

-- A run that was asked for a rescan starts at the given height.
unfoldable pub begin_run : {H : Type 0} → Bool → Indexer H → Result (Indexer H)
unfolding set_scanned_height
begin_run false s = ok s
begin_run true s = do
  metadata ← from_database (set_scanned_height s.start_height s.database.metadata)
  ok (record s { database = record s.database { metadata = metadata } })

-- `run`: the loop begins with an empty batch.
unfoldable pub run :
    {H : Type 0} ⦃b : BlockHeader H⦄ ⦃c : Script⦄ ⦃o : Ordinals⦄
    → ℕ
    → List (Round H)
    → Indexer H
    → Result (Progress H)
unfolding begin_run run_loop
run fuel rounds s = do
  s' ← begin_run s.rescan s
  run_loop fuel rounds (record s' { batch_left = pos 0; max_scanned_height = 0 })

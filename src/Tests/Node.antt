-- ===== src/Tests/Node.antt =====
-- Messages of the node (vault-indexer/src/indexer/node.rs).
use mutinynet_indexer.Common.{ℕ, ◌≡◌, ◌↔◌, none, some, [], ◌∷◌, ◌++◌}
use mutinynet_indexer.Common.Int.{pos}
use mutinynet_indexer.Indexer.Node.Error.{ok, err, event_bus_recv, connection, receiving_header}
use mutinynet_indexer.Indexer.Node.Worker
use mutinynet_indexer.Indexer.Node.Worker.Outcomes.{
  IsAgreed, node_handshake-IsAgreed, losses, no_connection, no_header, bus_recv,
  node_worker-recovers,
}
use mutinynet_indexer.Network.{MagicBytes}
use mutinynet_indexer.P2p.{NetworkMessage, version, verack}

instance pub magic_bytes : MagicBytes
magic_bytes = record { of_crate = λ network. 249 ∷ 190 ∷ 180 ∷ 217 ∷ [] }

node_worker-recovers_example :
    (Worker.node_worker (losses (connection ∷ receiving_header ∷ [])) ≡ (2, none))
    × (Worker.node_worker (
          losses (connection ∷ receiving_header ∷ [])
          ++ ((err event_bus_recv, ok tt) ∷ (ok tt, ok tt) ∷ []))
        ≡ (2, some (err event_bus_recv)))
node_worker-recovers_example =
    node_worker-recovers (connection ∷ receiving_header ∷ []) (err event_bus_recv, ok tt)
      (err event_bus_recv) ((ok tt, ok tt) ∷ []) (no_connection, (no_header, tt)) (bus_recv (ok tt))

abbrev their_version : NetworkMessage ℕ
their_version = version (record { nonce = 8; start_height = pos 1200 })

node_handshake-IsAgreed_example :
    (Worker.node_handshake {H = ℕ} 7 (ok tt) (ok their_version) (ok tt) (ok verack) ≡ ok 1200)
    ↔ IsAgreed {H = ℕ} 7 (ok tt) (ok their_version) (ok tt) (ok verack) 1200
node_handshake-IsAgreed_example =
    node_handshake-IsAgreed 7 (ok tt) (ok their_version) (ok tt) (ok verack) 1200

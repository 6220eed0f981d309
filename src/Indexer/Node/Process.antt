-- ===== src/Indexer/Node/Process.antt =====
-- A connection as a whole (vault-indexer/src/indexer/node.rs, `node_process`): the handshake on the
-- stream, and then the thread that reads beside the loop that sends.
pub mod Delivers
use mutinynet_indexer.Common.{ℕ, Option, some, List, [], ◌∷◌, map}
use mutinynet_indexer.Indexer.Event.{Event, handshaked, incoming_message}
use mutinynet_indexer.Indexer.Node.Error.{Result, ok, err, ◌>>=◌}
use mutinynet_indexer.Indexer.Node.Message.{Decoder, receive_message, receiver_loop}
use mutinynet_indexer.Indexer.Node.Worker.{Turn, node_handshake, sender_loop}
use mutinynet_indexer.Network.{Network, MagicBytes}
use mutinynet_indexer.P2p.{NetworkMessage}

-- What becomes of a connection outside the program: the name is resolved and the stream is opened,
-- the nonce of our version message, the sending of our two messages of the handshake, the event
-- that is posted after it, the copy of the stream for the thread that reads, and all bytes that
-- the node sends.
pub record Connection : Type 0 where
  pub connected : Result (Unit {0})
  pub self_nonce : ℕ
  pub version_sent : Result (Unit {0})
  pub verack_sent : Result (Unit {0})
  pub handshake_posted : Result (Unit {0})
  pub cloned : Result (Unit {0})
  pub stream : List ℕ

module _ {H : Type 0} where
  -- The message that was received, and the bytes behind it.
  abbrev pub message_of : Result (NetworkMessage H × List ℕ) → Result (NetworkMessage H)
  message_of (err e) = err e
  message_of (ok (msg, left)) = ok msg

  abbrev pub left_of : Result (NetworkMessage H × List ℕ) → List ℕ
  left_of (err e) = []
  left_of (ok (msg, left)) = left

  -- The events that are posted after the handshake, and what the connection ends with, if it does.
  unfoldable pub process_events :
      Result (Unit {0})
      → Result (Unit {0})
      → ℕ
      → List (NetworkMessage H)
      → Option (Result (Unit {0}))
      → List (Event H) × Option (Result (Unit {0}))
  process_events (err e) cloned remote_height msgs ended = ([], some (err e))
  process_events (ok _) (err e) remote_height msgs ended =
      (handshaked remote_height ∷ [], some (err e))
  process_events (ok _) (ok _) remote_height msgs ended =
      (handshaked remote_height ∷ map incoming_message msgs, ended)

-- The handshake on the stream: the height of the node, and the bytes behind the handshake.
unfoldable pub open_connection :
    (H : Type 0) ⦃k : MagicBytes⦄ ⦃d : Decoder H⦄ → Network → Connection → Result (ℕ × List ℕ)
unfolding receive_message node_handshake
open_connection H network c = do
  _ ← c.connected
  let first = receive_message {H = H} network c.stream
  let second = receive_message {H = H} network (left_of first)
  remote_height ←
      node_handshake c.self_nonce c.version_sent (message_of first) c.verack_sent
        (message_of second)
  ok (remote_height, left_of second)

module _ {H : Type 0} ⦃k : MagicBytes⦄ ⦃d : Decoder H⦄ where
  -- `rounds` is how many rounds the thread that reads makes, and the turns are those of the loop
  -- that sends.
  unfoldable pub node_process :
      ℕ → Network → Connection → List (Turn H) → List (Event H) × Option (Result (Unit {0}))
  unfolding open_connection process_events receiver_loop sender_loop
  node_process rounds network c turns = elim (open_connection H network c) [
    | err e ↦ ([], some (err e))
    | ok opened ↦
        process_events c.handshake_posted c.cloned opened.0
          (receiver_loop rounds network opened.1).0 (sender_loop turns)
  ]

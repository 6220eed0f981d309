-- ===== src/Indexer/Node/Worker.antt =====
-- The handshake with the node, and the worker that keeps the connection
-- (vault-indexer/src/indexer/node.rs).
pub mod Outcomes
use mutinynet_indexer.Common.{
  ℕ, ◌-◌, ◌%◌, ◌^◌, suc, Bool, true, false, Option, none, some, List, [], ◌∷◌, ◌++◌, not, ◌==◌,
}
use mutinynet_indexer.Common.Int.{ℤ, pos, negsuc}
use mutinynet_indexer.Indexer.Event.{Event, outcoming_message, termination, disconnected}
use mutinynet_indexer.Indexer.Node.Error.{
  Error, Result, ok, err, event_bus_send, event_bus_recv, wrong_magic, no_version_message,
  no_verack_message, self_connection, guard, ◌>>=◌,
}
use mutinynet_indexer.P2p.{NetworkMessage, VersionMessage, version, verack}

-- The `i32` to `u32` cast.
abbrev pub unsigned32 : ℤ → ℕ
unsigned32 (pos n) = n % 2 ^ 32
unsigned32 (negsuc n) = 2 ^ 32 - suc n % 2 ^ 32

-- What a round of the loop that sends meets: the thread that reads has ended, or the receiver of
-- events has something to say, with what becomes of sending it.
pub data Turn (H : Type 0) : Type 0 where
  receiver_finished : Result (Unit {0}) → Turn H
  timeout : Turn H
  bus_disconnected : Turn H
  received : Event H → Result (Unit {0}) → Turn H

module _ {H : Type 0} where
  unfoldable pub expect_version : NetworkMessage H → Result VersionMessage
  expect_version (version ver) = ok ver
  expect_version _ = err no_version_message

  unfoldable pub expect_verack : NetworkMessage H → Result (Unit {0})
  expect_verack verack = ok tt
  expect_verack _ = err no_verack_message

  -- After the connection is made: our version goes out, theirs comes in, our verack goes out, and
  -- theirs comes in. What became of sending and receiving is given; the height of the node comes
  -- out.
  unfoldable pub node_handshake :
      ℕ
      → Result (Unit {0})
      → Result (NetworkMessage H)
      → Result (Unit {0})
      → Result (NetworkMessage H)
      → Result ℕ
  unfolding expect_version expect_verack
  node_handshake self_nonce version_sent first verack_sent second = do
    _ ← version_sent
    first_msg ← first
    ver ← expect_version first_msg
    _ ← guard (not (ver.nonce == self_nonce)) self_connection
    _ ← verack_sent
    second_msg ← second
    _ ← expect_verack second_msg
    ok (unsigned32 ver.start_height)

  -- The loop that sends. It comes to an end with a result, or goes on.
  unfoldable pub sender_loop : List (Turn H) → Option (Result (Unit {0}))
  sender_loop [] = none
  sender_loop (receiver_finished result ∷ turns) = some result
  sender_loop (timeout ∷ turns) = sender_loop turns
  sender_loop (bus_disconnected ∷ turns) = some (err event_bus_recv)
  sender_loop (received (outcoming_message msg) (err e) ∷ turns) = some (err e)
  sender_loop (received termination _ ∷ turns) = some (ok tt)
  sender_loop (received _ _ ∷ turns) = sender_loop turns

-- Whether a new connection makes sense after the error.
unfoldable pub is_recoverable : Error → Bool
is_recoverable event_bus_send = false
is_recoverable event_bus_recv = false
is_recoverable (wrong_magic _ _) = false
is_recoverable _ = true

-- What becomes of posting that the connection is lost: the worker ends when that fails.
unfoldable pub reported :
    Result (Unit {0}) → ℕ × Option (Result (Unit {0})) → ℕ × Option (Result (Unit {0}))
reported (err e) rest = (0, some (err e))
reported (ok _) (count, ended) = (suc count, ended)

-- The worker, for one connection after another: what it ended with, and what becomes of posting
-- that it is lost. It gives how often it has posted that, and the result that it ends with, if one.
unfoldable pub node_worker :
    List (Result (Unit {0}) × Result (Unit {0})) → ℕ × Option (Result (Unit {0}))
unfolding is_recoverable reported
node_worker [] = (0, none)
node_worker ((ok _, _) ∷ connections) = (0, some (ok tt))
node_worker ((err e, posted) ∷ connections) =
    let rest = node_worker connections in
    elim (is_recoverable e) [ true ↦ reported posted rest | false ↦ (0, some (err e)) ]

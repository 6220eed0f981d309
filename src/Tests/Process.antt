-- ===== src/Tests/Process.antt =====
-- A connection to a node that sends its version, its verack and two pings
-- (vault-indexer/src/indexer/node.rs).
use mutinynet_indexer.Common.{
  ℕ, Option, some, List, [], ◌∷◌, ◌++◌, length, replicate, ◌==◌, if◌then◌else◌,
}
use mutinynet_indexer.Common.Int.{pos}
use mutinynet_indexer.Indexer.Event.{outcoming_message, termination}
use mutinynet_indexer.Indexer.Node.Error.{ok}
use mutinynet_indexer.Indexer.Node.Message as Message
use mutinynet_indexer.Indexer.Node.Message.{Decoder}
use mutinynet_indexer.Indexer.Node.Message.Frames.{concat}
use mutinynet_indexer.Indexer.Node.Process as Process
use mutinynet_indexer.Indexer.Node.Process.{Connection}
use mutinynet_indexer.Indexer.Node.Worker.{Turn, received, timeout}
use mutinynet_indexer.P2p.{NetworkMessage, VersionMessage, version, verack, ping, pong}
use mutinynet_indexer.Tests.Node.{magic_bytes}

abbrev their_version : VersionMessage
their_version = record { nonce = 8; start_height = pos 1200 }

-- A message of 24 bytes is a verack, one of 25 bytes a version, and any other a ping.
abbrev decode : List ℕ → Option (NetworkMessage ℕ)
decode bytes =
    if length bytes == 24
    then some verack
    else if length bytes == 25
    then some (version their_version)
    else some (ping (length bytes))

instance decoder : Decoder ℕ
decoder = record { deserialize = decode }

abbrev sized : ℕ → List ℕ
sized size =
    (165 ∷ 223 ∷ 45 ∷ 203 ∷ replicate 12 7)
    ++ (size ∷ 0 ∷ 0 ∷ 0 ∷ replicate 4 9)
    ++ replicate size 5

abbrev connection : Connection
connection = record {
  connected = ok tt;
  self_nonce = 7;
  version_sent = ok tt;
  verack_sent = ok tt;
  handshake_posted = ok tt;
  cloned = ok tt;
  stream = concat (sized 1 ∷ sized 0 ∷ sized 8 ∷ sized 8 ∷ []);
}

abbrev turns : List (Turn ℕ)
turns = timeout ∷ received (outcoming_message (pong 3)) (ok tt) ∷ received termination (ok tt) ∷ []

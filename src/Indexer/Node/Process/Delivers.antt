-- ===== src/Indexer/Node/Process/Delivers.antt =====
-- What a node that keeps to the protocol brings to the indexer
-- (vault-indexer/src/indexer/node.rs).
use mutinynet_indexer.Common.{ℕ, ◌≡◌, some, List}
use mutinynet_indexer.Indexer.Node.Error.{ok}
use mutinynet_indexer.Indexer.Node.Message.{Decoder}
use mutinynet_indexer.Indexer.Node.Message.Frames.{IsFrame}
use mutinynet_indexer.Indexer.Node.Process.{Connection}
use mutinynet_indexer.Network.{Network, MagicBytes}
use mutinynet_indexer.P2p.{NetworkMessage}

-- Nothing fails on our side.
pub record IsUp (c : Connection) : Type 0 where
  pub connected : c.connected ≡ ok tt
  pub version_sent : c.version_sent ≡ ok tt
  pub verack_sent : c.verack_sent ≡ ok tt
  pub handshake_posted : c.handshake_posted ≡ ok tt
  pub cloned : c.cloned ≡ ok tt

module _ {H : Type 0} ⦃k : MagicBytes⦄ ⦃d : Decoder H⦄ where
  -- The bytes of a message of the given content.
  pub record IsMessage (network : Network) (msg : NetworkMessage H) (bytes : List ℕ) : Type 0 where
    pub frame : IsFrame network bytes
    pub content : d.deserialize bytes ≡ some msg

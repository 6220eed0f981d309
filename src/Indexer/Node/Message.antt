-- ===== src/Indexer/Node/Message.antt =====
-- Messages on the stream of the node (vault-indexer/src/indexer/node.rs, `receive_message`).
pub mod Frames
use mutinynet_indexer.Common.{
  ℕ, zero, suc, ◌+◌, ◌*◌, Bool, true, false, ◌&&◌, Option, none, some, List, [], ◌∷◌, ◌++◌, length,
  take, drop, leb, ◌==◌, if◌then◌else◌,
}
use mutinynet_indexer.Indexer.Node.Error.{
  Error, Result, ok, err, receiving_header, receiving_payload, wrong_magic, decoding_message, ok_or,
  guard, ◌>>=◌,
}
use mutinynet_indexer.Network.{Network, MagicBytes, magic}
use mutinynet_indexer.P2p.{NetworkMessage}

-- The decoder of the `bitcoin` crate, which takes a whole message with its header.
pub record Decoder (H : Type 0) : Type 0 where
  pub deserialize : List ℕ → Option (NetworkMessage H)

abbrev pub header_size : ℕ
header_size = 24

-- `Read::read_exact` on a stream of bytes.
unfoldable pub read_exact : ℕ → List ℕ → Option (List ℕ × List ℕ)
read_exact n stream = if leb n (length stream) then some (take n stream, drop n stream) else none

-- `u32::from_le_bytes`
unfoldable pub from_le_bytes : List ℕ → ℕ
from_le_bytes [] = 0
from_le_bytes (b ∷ bs) = b + 256 * from_le_bytes bs

unfoldable pub is_same_bytes : List ℕ → List ℕ → Bool
is_same_bytes [] [] = true
is_same_bytes (x ∷ xs) (y ∷ ys) = (x == y) && is_same_bytes xs ys
is_same_bytes _ _ = false

-- The bytes of the message at the front of the stream, and what is left of the stream. The length
-- of what follows the header stands in the header.
unfoldable pub read_message : ⦃k : MagicBytes⦄ → Network → List ℕ → Result (List ℕ × List ℕ)
unfolding read_exact from_le_bytes is_same_bytes magic
read_message network stream = do
  (header_buf, left) ← ok_or (read_exact header_size stream) receiving_header
  _ ←
      guard (is_same_bytes (take 4 header_buf) (magic network))
        (wrong_magic (take 4 header_buf) (magic network))
  let payload_len = from_le_bytes (take 4 (drop 16 header_buf))
  (payload, left') ← ok_or (read_exact payload_len left) receiving_payload
  ok (header_buf ++ payload, left')

module _ {H : Type 0} ⦃k : MagicBytes⦄ ⦃d : Decoder H⦄ where
  unfoldable pub receive_message : Network → List ℕ → Result (NetworkMessage H × List ℕ)
  unfolding read_message
  receive_message network stream = do
    (bytes, left) ← read_message network stream
    msg ← ok_or (d.deserialize bytes) (decoding_message bytes)
    ok (msg, left)

  -- A message is passed on, and one that cannot be decoded is passed over.
  unfoldable pub pass_on :
      Option (NetworkMessage H)
      → List (NetworkMessage H) × Option Error
      → List (NetworkMessage H) × Option Error
  pass_on none rest = rest
  pass_on (some msg) (msgs, ended) = (msg ∷ msgs, ended)

  -- The thread that reads from the stream, for as many rounds as pass before it is told to stop:
  -- the messages it passes on, and the error that it ends with, if one.
  unfoldable pub receiver_loop : ℕ → Network → List ℕ → List (NetworkMessage H) × Option Error
  unfolding read_message pass_on
  receiver_loop zero network stream = ([], none)
  receiver_loop (suc rounds) network stream = elim (read_message network stream) [
    | err e ↦ ([], some e)
    | ok read ↦ pass_on (d.deserialize read.0) (receiver_loop rounds network read.1)
  ]

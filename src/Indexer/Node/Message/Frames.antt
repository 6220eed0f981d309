-- ===== src/Indexer/Node/Message/Frames.antt =====
-- The messages of a stream are found again one after another
-- (vault-indexer/src/indexer/node.rs).
use mathlib.Core.Path.{subst}
use mathlib.Core.List.{append_assoc}
use mutinynet_indexer.Common.{
  ℕ, ◌≡◌, refl, sym, ap, ◌∙◌, true, Option, none, some, List, [], ◌∷◌, ◌++◌, length, length-append,
  take, drop, leb, ==_refl, arith,
}
use mutinynet_indexer.Indexer.Node.Error.{
  Error, Result, wrong_magic, receiving_header, receiving_payload, ok, ok_or, guard, ◌>>=◌,
}
use mutinynet_indexer.Indexer.Node.Message.{
  Decoder, header_size, read_exact, from_le_bytes, is_same_bytes, read_message, pass_on,
  receiver_loop,
}
use mutinynet_indexer.Network.{Network, MagicBytes, magic}
use mutinynet_indexer.P2p.{NetworkMessage}

-- A message as it is laid out: a header of 24 bytes, with the magic bytes in front and the length
-- of the payload at the offset 16, and the payload.
pub record IsFrame ⦃k : MagicBytes⦄ (network : Network) (bytes : List ℕ) : Type 0 where
  pub header : List ℕ
  pub payload : List ℕ
  pub shape : header ++ payload ≡ bytes
  pub size : length header ≡ 24
  pub front : take 4 header ≡ magic network
  pub announced : from_le_bytes (take 4 (drop 16 header)) ≡ length payload

take-append_self : (xs ys : List ℕ) → take (length xs) (xs ++ ys) ≡ xs
take-append_self [] ys = refl
take-append_self (x ∷ xs) ys = ap (λ l. x ∷ l) (take-append_self xs ys)

drop-append_self : (xs ys : List ℕ) → drop (length xs) (xs ++ ys) ≡ ys
drop-append_self [] ys = refl
drop-append_self (x ∷ xs) ys = drop-append_self xs ys

fits : (xs ys : List ℕ) → leb (length xs) (length (xs ++ ys)) ≡ true
fits xs ys = ground (arith, length-append xs ys)

read_exact-append :
    (n : ℕ) (xs ys : List ℕ) → length xs ≡ n → read_exact n (xs ++ ys) ≡ some (xs, ys)
unfolding read_exact
read_exact-append n xs ys e =
    subst (λ m. read_exact m (xs ++ ys) ≡ some (xs, ys)) e
      (rw (fits xs ys, take-append_self xs ys, drop-append_self xs ys) refl)

is_same_bytes_refl : (xs : List ℕ) → is_same_bytes xs xs ≡ true
unfolding is_same_bytes
is_same_bytes_refl [] = refl
is_same_bytes_refl (x ∷ xs) = rw (==_refl x) (is_same_bytes_refl xs)

module _ ⦃k : MagicBytes⦄ where
  pub read_message-frame :
      (network : Network) (bytes rest : List ℕ)
      → IsFrame network bytes
      → read_message network (bytes ++ rest) ≡ ok (bytes, rest)
  unfolding read_message
  read_message-frame network bytes rest f =
      let whole : (bytes ++ rest) ≡ f.header ++ (f.payload ++ rest) =
        ap (λ l. l ++ rest) (sym f.shape) ∙ append_assoc f.header f.payload rest in
      let head : read_exact header_size (bytes ++ rest) ≡ some (f.header, f.payload ++ rest) =
        ap (read_exact header_size) whole
        ∙ read_exact-append header_size f.header (f.payload ++ rest) f.size in
      let tail : read_exact (from_le_bytes (take 4 (drop 16 f.header))) (f.payload ++ rest)
          ≡ some (f.payload, rest) =
        read_exact-append (from_le_bytes (take 4 (drop 16 f.header))) f.payload rest
          (sym f.announced) in
      let same : is_same_bytes (take 4 f.header) (magic network) ≡ true =
        ap (is_same_bytes (take 4 f.header)) (sym f.front) ∙ is_same_bytes_refl (take 4 f.header) in
      let wrong : Error = wrong_magic (take 4 f.header) (magic network) in
      let payload_of : List ℕ × List ℕ → Result (List ℕ × List ℕ) = λ x.
        ok_or (read_exact (from_le_bytes (take 4 (drop 16 x.0))) x.1) receiving_payload
        >>= (λ y. ok (x.0 ++ y.0, y.1)) in
      ap
        (λ m. ok_or m receiving_header >>= (λ x.
          guard (is_same_bytes (take 4 x.0) (magic network))
            (wrong_magic (take 4 x.0) (magic network))
          >>= (λ _. payload_of x)))
        head
      ∙ ap (λ t. guard t wrong >>= (λ _. payload_of (f.header, f.payload ++ rest))) same
      ∙ ap (λ m. ok_or m receiving_payload >>= (λ y. ok (f.header ++ y.0, y.1))) tail
      ∙ ap (λ l. ok (l, rest)) f.shape

-- Every item of the list is a frame.
abbrev pub AreFrames : ⦃k : MagicBytes⦄ → Network → List (List ℕ) → Type 0
AreFrames network [] = Unit {0}
AreFrames network (frame ∷ frames) = IsFrame network frame × AreFrames network frames

abbrev pub concat : List (List ℕ) → List ℕ
concat [] = []
concat (frame ∷ frames) = frame ++ concat frames

module _ {H : Type 0} ⦃k : MagicBytes⦄ ⦃d : Decoder H⦄ where
  -- The messages of the frames that can be decoded.
  abbrev pub decoded : List (List ℕ) → List (NetworkMessage H)
  decoded [] = []
  decoded (frame ∷ frames) = elim (d.deserialize frame) [
    | none ↦ decoded frames
    | some msg ↦ msg ∷ decoded frames
  ]

  -- From a stream of frames, each with the magic bytes of the network and the length of its
  -- payload in its header, the thread that reads passes on the messages in order, one in a round;
  -- frames that cannot be decoded are passed over and do not disturb the others, and there is no
  -- error.
  pub receiver_loop-frames :
      (network : Network) (frames : List (List ℕ))
      → AreFrames network frames
      → receiver_loop (length frames) network (concat frames) ≡ (decoded frames, none)
  unfolding receiver_loop pass_on
  receiver_loop-frames network [] are = refl
  receiver_loop-frames network (frame ∷ frames) (is, are) =
      rw (receiver_loop, read_message-frame network frame (concat frames) is)
        (ap (pass_on (d.deserialize frame)) (receiver_loop-frames network frames are)
          ∙ passed (d.deserialize frame) (decoded frames))
    where
      passed :
          (m : Option (NetworkMessage H)) (msgs : List (NetworkMessage H))
          → pass_on m (msgs, none) ≡ (elim m [ none ↦ msgs | some msg ↦ msg ∷ msgs ], none)
      passed none msgs = refl
      passed (some msg) msgs = refl

-- ===== src/Vault/Bytes.antt =====
-- `BytesParser` (vault-indexer/src/vault/transaction.rs): what is taken from an iterator of bytes,
-- and the bytes that are left. A call that runs out of bytes has taken all there were.
use mathlib.Core.List.{foldl}
use mutinynet_indexer.Common.{
  ℕ, zero, suc, ◌+◌, ◌*◌, ◌/◌, ◌%◌, ◌≡◌, refl, ap, Option, none, some, List, [], ◌∷◌, ◌++◌, arith,
  length,
}

-- A byte goes before what the rest of the loop has put into the buffer.
abbrev prepend : ℕ → Option (List ℕ) × List ℕ → Option (List ℕ) × List ℕ
prepend byte (none, left) = (none, left)
prepend byte (some items, left) = (some (byte ∷ items), left)

-- The loop that fills a buffer of n bytes.
unfoldable pub next_bytes : ℕ → List ℕ → Option (List ℕ) × List ℕ
next_bytes zero bytes = (some [], bytes)
next_bytes (suc n) [] = (none, [])
next_bytes (suc n) (byte ∷ bytes) = prepend byte (next_bytes n bytes)

unfoldable pub next4 : List ℕ → Option (List ℕ) × List ℕ
next4 bytes = next_bytes 4 bytes

unfoldable pub next20 : List ℕ → Option (List ℕ) × List ℕ
next20 bytes = next_bytes 20 bytes

-- `u32::from_be_bytes`
abbrev pub from_be_bytes : List ℕ → ℕ
from_be_bytes bytes = foldl (λ w byte. w * 256 + byte) 0 bytes

-- The `map` of the result, beside the bytes that are left.
abbrev pub as_u32 : Option (List ℕ) × List ℕ → Option ℕ × List ℕ
as_u32 (none, left) = (none, left)
as_u32 (some items, left) = (some (from_be_bytes items), left)

unfoldable pub next_u32_be : List ℕ → Option ℕ × List ℕ
unfolding next4
next_u32_be bytes = as_u32 (next4 bytes)

-- The four bytes of a `u32`, the highest first.
unfoldable pub to_be_bytes : ℕ → List ℕ
to_be_bytes w = w / 16777216 ∷ w / 65536 % 256 ∷ w / 256 % 256 ∷ w % 256 ∷ []

-- What was written is read back.
pub next_u32_be-to_be_bytes :
    (w : ℕ) (rest : List ℕ) → next_u32_be (to_be_bytes w ++ rest) ≡ (some w, rest)
unfolding next_u32_be next4 next_bytes to_be_bytes
next_u32_be-to_be_bytes w rest = ap (λ n. (some n, rest)) (omega arith)

pub next_bytes-all : (n : ℕ) (xs : List ℕ) → length xs ≡ n → next_bytes n xs ≡ (some xs, [])
unfolding next_bytes
next_bytes-all zero [] h = refl
next_bytes-all zero (x ∷ xs) h = absurd (omega arith)
next_bytes-all (suc n) [] h = absurd (omega arith)
next_bytes-all (suc n) (x ∷ xs) h = rw (next_bytes-all n xs (omega arith)) refl

prepend-some :
    (byte : ℕ) (r : Option (List ℕ) × List ℕ) {xs left : List ℕ}
    → prepend byte r ≡ (some xs, left)
    → (ys : List ℕ) × (r ≡ (some ys, left)) × (xs ≡ byte ∷ ys)
prepend-some byte (none, left) e = cc
prepend-some byte (some items, left) e = (items, cc, cc)

-- A buffer that is filled, and what is left, are the bytes there were.
pub next_bytes-splits :
    (n : ℕ) (bytes : List ℕ) {xs left : List ℕ}
    → next_bytes n bytes ≡ (some xs, left)
    → (length xs ≡ n) × (bytes ≡ xs ++ left)
unfolding next_bytes
next_bytes-splits zero bytes e = (cc, cc)
next_bytes-splits (suc n) [] e = cc
next_bytes-splits (suc n) (byte ∷ bytes) e =
    let (ys, run, same) = prepend-some byte (next_bytes n bytes) e in
    let (len, split) = next_bytes-splits n bytes run in
    (rw same (ap suc len), rw (same, split) refl)

-- ===== src/Cache/Headers/Path.antt =====
-- Paths in the stored forest: their entries, their parts, and what keeps them.
use mutinynet_indexer.Common.{
  ℕ, zero, suc, ◌+◌, ◌≤◌, ◌<◌, ◌≡◌, true, some, List, [], ◌∷◌, ◌++◌, arith, length, get_elem?, take,
  drop, last_or,
}
use mutinynet_indexer.Common.Dict.{Dict, lookup}
use mutinynet_indexer.Cache.Block.{BlockHeader, prev_blockhash}
use mutinynet_indexer.Cache.Headers.Invariant.{IsPath}
use mutinynet_indexer.Db.Header.{HeaderRecord}

module _ {H : Type 0} ⦃b : BlockHeader H⦄ (d : Dict (HeaderRecord H)) where
  -- The record at an index of a path.
  pub path-entry :
      (p n : ℕ) (xs : List ℕ) (i : ℕ) {h : ℕ}
      → IsPath d p n xs
      → get_elem? xs i ≡ some h
      → (r : HeaderRecord H) × (lookup h d ≡ some r) × (r.height ≡ n + i) × (r.in_longest ≡ true)
  path-entry p n [] i w e = cc
  path-entry p n (x ∷ xs) zero w e = (w.0.0, ground arith, omega (arith, w.0.2), w.0.4)
  path-entry p n (x ∷ xs) (suc i) w e =
      let (r, found, at, flag) = path-entry x (suc n) xs i w.1 e in (r, found, omega arith, flag)

  -- Below an entry of a path stands its parent.
  pub path-link :
      (p n : ℕ) (xs : List ℕ) (i : ℕ) {h : ℕ} {r : HeaderRecord H}
      → IsPath d p n xs
      → get_elem? xs (suc i) ≡ some h
      → lookup h d ≡ some r
      → get_elem? xs i ≡ some (prev_blockhash r.header)
  path-link p n [] i w e f = cc
  path-link p n (x ∷ []) i w e f = cc
  path-link p n (x ∷ y ∷ xs) zero w e f = ground arith
  path-link p n (x ∷ y ∷ xs) (suc i) w e f = path-link x (suc n) (y ∷ xs) i w.1 e f

  -- The first entry has the given parent.
  pub path-parent :
      (p n : ℕ) (xs : List ℕ) {h : ℕ} {r : HeaderRecord H}
      → IsPath d p n xs
      → get_elem? xs 0 ≡ some h
      → lookup h d ≡ some r
      → prev_blockhash r.header ≡ p
  path-parent p n [] w e f = cc
  path-parent p n (x ∷ xs) w e f = ground arith

  pub IsPath-append :
      (p n : ℕ) (xs ys : List ℕ) {m : ℕ}
      → n + length xs ≡ m
      → IsPath d p n xs
      → IsPath d (last_or p xs) m ys
      → IsPath d p n (xs ++ ys)
  IsPath-append p n [] ys {m} e w v = let e' : n ≡ m = omega arith in rw e' v
  IsPath-append p n (x ∷ xs) ys {m} e w v = (w.0, IsPath-append x (suc n) xs ys (omega arith) w.1 v)

  pub IsPath-take : (p n : ℕ) (xs : List ℕ) (k : ℕ) → IsPath d p n xs → IsPath d p n (take k xs)
  IsPath-take p n xs zero w = tt
  IsPath-take p n [] (suc k) w = tt
  IsPath-take p n (x ∷ xs) (suc k) w = (w.0, IsPath-take x (suc n) xs k w.1)

  pub IsPath-drop :
      (p n : ℕ) (xs : List ℕ) (k m : ℕ)
      → n + k ≡ m
      → k ≤ length xs
      → IsPath d p n xs
      → IsPath d (last_or p (take k xs)) m (drop k xs)
  IsPath-drop p n xs zero m e le w = let e' : m ≡ n = omega arith in rw e' w
  IsPath-drop p n [] (suc k) m e le w = elim le [ ]
  IsPath-drop p n (x ∷ xs) (suc k) m e le w =
      IsPath-drop x (suc n) xs k m (omega arith) (omega arith) w.1

-- A path stays one where the records of its heights are kept.
pub IsPath-frame :
    {H : Type 0} ⦃b : BlockHeader H⦄ (d d' : Dict (HeaderRecord H)) (p n : ℕ) (xs : List ℕ)
    → ((h : ℕ) (r : HeaderRecord H)
        → lookup h d ≡ some r
        → r.height < n + length xs
        → r.in_longest ≡ true
        → lookup h d' ≡ some r)
    → IsPath d p n xs
    → IsPath d' p n xs
IsPath-frame d d' p n [] keep w = tt
IsPath-frame d d' p n (x ∷ xs) keep w = (
  (w.0.0, keep x w.0.0 w.0.1 (omega (arith, w.0.2)) w.0.4, w.0.2, w.0.3, w.0.4),
  IsPath-frame d d' x (suc n) xs (λ h r f lt flag. keep h r f (omega arith) flag) w.1,
)

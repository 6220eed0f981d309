-- ===== src/Common/Lists.antt =====
-- Lists measured and indexed by native numbers, under the library's names.
use Prim.Native.Nat.{ℕ, zero, suc, ◌+◌, ◌<◌, ◌≤◌}
use mathlib.Core.Path.{◌≡◌, refl, ap}
use mathlib.Core.List.{List, [], ◌∷◌, ◌++◌, map}
use mathlib.Core.Option.{Option, none, some}
use native.Mathlib.Omega.{arith}

module _ {ℓ} {A : Type ℓ} where
  abbrev pub length : List A → ℕ
  length [] = 0
  length (x ∷ xs) = suc (length xs)

  abbrev pub get_elem? : List A → ℕ → Option A
  get_elem? [] i = none
  get_elem? (x ∷ xs) zero = some x
  get_elem? (x ∷ xs) (suc i) = get_elem? xs i

  -- A write out of bounds changes nothing.
  abbrev pub set : List A → ℕ → A → List A
  set [] i v = []
  set (x ∷ xs) zero v = v ∷ xs
  set (x ∷ xs) (suc i) v = x ∷ set xs i v

  abbrev pub take : ℕ → List A → List A
  take zero xs = []
  take (suc n) [] = []
  take (suc n) (x ∷ xs) = x ∷ take n xs

  abbrev pub drop : ℕ → List A → List A
  drop zero xs = xs
  drop (suc n) [] = []
  drop (suc n) (x ∷ xs) = drop n xs

  abbrev pub replicate : ℕ → A → List A
  replicate zero a = []
  replicate (suc n) a = a ∷ replicate n a

  -- The last element of a list, or the given one.
  abbrev pub last_or : A → List A → A
  last_or d [] = d
  last_or d (x ∷ xs) = last_or x xs

  pub length-append : (xs ys : List A) → length (xs ++ ys) ≡ length xs + length ys
  length-append [] ys = omega arith
  length-append (x ∷ xs) ys = omega (arith, length-append xs ys)

module _ {ℓ} {A : Type ℓ} where
  pub length-take_le : (n : ℕ) (xs : List A) → n ≤ length xs → length (take n xs) ≡ n
  length-take_le zero xs h = refl
  length-take_le (suc n) [] h = elim h [ ]
  length-take_le (suc n) (x ∷ xs) h = omega (arith, length-take_le n xs (omega arith))

  pub length-map {κ} : {B : Type κ} (f : A → B) (xs : List A) → length (map f xs) ≡ length xs
  length-map f [] = refl
  length-map f (x ∷ xs) = ap suc (length-map f xs)

  pub length-replicate : (n : ℕ) (a : A) → length (replicate n a) ≡ n
  length-replicate zero a = refl
  length-replicate (suc n) a = ap suc (length-replicate n a)

  pub take-append-drop : (n : ℕ) (xs : List A) → take n xs ++ drop n xs ≡ xs
  take-append-drop zero xs = refl
  take-append-drop (suc n) [] = refl
  take-append-drop (suc n) (x ∷ xs) = ap (λ l. x ∷ l) (take-append-drop n xs)

  pub take-all : (n : ℕ) (xs : List A) → length xs ≤ n → take n xs ≡ xs
  take-all zero [] h = refl
  take-all zero (x ∷ xs) h = elim h [ ]
  take-all (suc n) [] h = refl
  take-all (suc n) (x ∷ xs) h = ap (λ l. x ∷ l) (take-all n xs (omega arith))

  pub drop-all : (n : ℕ) (xs : List A) → length xs ≤ n → drop n xs ≡ []
  drop-all zero [] h = refl
  drop-all zero (x ∷ xs) h = elim h [ ]
  drop-all (suc n) [] h = refl
  drop-all (suc n) (x ∷ xs) h = drop-all n xs (omega arith)

  pub drop-eq-cons :
      (n : ℕ) (xs : List A) {x : A} → get_elem? xs n ≡ some x → drop n xs ≡ x ∷ drop (suc n) xs
  drop-eq-cons n [] h = cc
  drop-eq-cons zero (y ∷ ys) h = cc
  drop-eq-cons (suc n) (y ∷ ys) h = drop-eq-cons n ys h

  pub get_elem?-lt : (xs : List A) (n : ℕ) {x : A} → get_elem? xs n ≡ some x → n < length xs
  get_elem?-lt [] n h = cc
  get_elem?-lt (y ∷ ys) zero h = omega arith
  get_elem?-lt (y ∷ ys) (suc n) h = omega (arith, get_elem?-lt ys n h)

  pub get_elem?-some : (xs : List A) (n : ℕ) → n < length xs → (x : A) × (get_elem? xs n ≡ some x)
  get_elem?-some [] n h = elim h [ ]
  get_elem?-some (y ∷ ys) zero h = (y, refl)
  get_elem?-some (y ∷ ys) (suc n) h = get_elem?-some ys n (omega arith)

  pub get_elem?-append_left :
      (xs ys : List A) (n : ℕ) → n < length xs → get_elem? (xs ++ ys) n ≡ get_elem? xs n
  get_elem?-append_left [] ys n h = elim h [ ]
  get_elem?-append_left (x ∷ xs) ys zero h = refl
  get_elem?-append_left (x ∷ xs) ys (suc n) h = get_elem?-append_left xs ys n (omega arith)

  -- The last element of a list that is not empty is the one at its last index.
  pub get_elem?-last_or :
      (d : A) (x : A) (xs : List A) (n : ℕ)
      → length xs ≡ n
      → get_elem? (x ∷ xs) n ≡ some (last_or d (x ∷ xs))
  get_elem?-last_or d x [] zero h = refl
  get_elem?-last_or d x [] (suc n) h = absurd (omega arith)
  get_elem?-last_or d x (y ∷ ys) zero h = absurd (omega arith)
  get_elem?-last_or d x (y ∷ ys) (suc n) h = get_elem?-last_or x y ys n (omega arith)

  pub get_elem?-last :
      (d : A) (xs : List A) (n : ℕ) → length xs ≡ suc n → get_elem? xs n ≡ some (last_or d xs)
  get_elem?-last d [] n h = absurd (omega arith)
  get_elem?-last d (x ∷ xs) n h = get_elem?-last_or d x xs n (omega arith)

  -- A write at the end of a prefix.
  pub set-append :
      (xs : List A) (y : A) (ys : List A) (n : ℕ) (v : A)
      → length xs ≡ n
      → set (xs ++ (y ∷ ys)) n v ≡ xs ++ (v ∷ ys)
  set-append [] y ys zero v h = refl
  set-append [] y ys (suc n) v h = absurd (omega arith)
  set-append (x ∷ xs) y ys zero v h = absurd (omega arith)
  set-append (x ∷ xs) y ys (suc n) v h = ap (λ l. x ∷ l) (set-append xs y ys n v (omega arith))

  -- Writing what is there already changes nothing.
  pub set_self : (xs : List A) (n : ℕ) {v : A} → get_elem? xs n ≡ some v → set xs n v ≡ xs
  set_self [] n h = refl
  set_self (x ∷ xs) zero h = ground arith
  set_self (x ∷ xs) (suc n) h = ap (λ l. x ∷ l) (set_self xs n h)

  pub last_or-append : (d : A) (xs ys : List A) → last_or d (xs ++ ys) ≡ last_or (last_or d xs) ys
  last_or-append d [] ys = refl
  last_or-append d (x ∷ xs) ys = last_or-append x xs ys

  pub get_elem?-take : (xs : List A) (n i : ℕ) → i < n → get_elem? (take n xs) i ≡ get_elem? xs i
  get_elem?-take xs zero i h = elim h [ ]
  get_elem?-take [] (suc n) i h = refl
  get_elem?-take (x ∷ xs) (suc n) zero h = refl
  get_elem?-take (x ∷ xs) (suc n) (suc i) h = get_elem?-take xs n i (omega arith)

pub last_or-map {ℓ κ} :
    {A : Type ℓ} {B : Type κ} (f : A → B) (d : A) (xs : List A)
    → last_or (f d) (map f xs) ≡ f (last_or d xs)
last_or-map f d [] = refl
last_or-map f d (x ∷ xs) = last_or-map f x xs

-- ===== src/Common/Dict.antt =====
-- A `HashMap` keyed by hashes: an association list. A hash is a number, since it is only compared.
use Prim.Native.Nat.{ℕ}
use mathlib.Core.Path.{◌≡◌, refl, ap, ◌∙◌}
use mathlib.Core.Logic.{◌≢◌, ◌⊎◌, inl, inr}
use native.Mathlib.Decide.{ℕ_discrete}
use mathlib.Core.Bool.{Bool, true, false}
use mathlib.Core.Option.{Option, none, some}
use mathlib.Core.List.{List, [], ◌∷◌, ◌++◌}
use native.Mathlib.Omega.{arith}
use mutinynet_indexer.Common.Tests.{◌==◌, if◌then◌else◌}

abbrev pub Dict {ℓ} : Type ℓ → Type ℓ
Dict V = List (ℕ × V)

module _ {ℓ} {V : Type ℓ} where
  -- `get`
  unfoldable pub lookup : ℕ → Dict V → Option V
  lookup k [] = none
  lookup k ((j, v) ∷ d) = if j == k then some v else lookup k d

  -- `insert`
  unfoldable pub insert : ℕ → V → Dict V → Dict V
  insert k v [] = (k, v) ∷ []
  insert k v ((j, w) ∷ d) = if j == k then (k, v) ∷ d else (j, w) ∷ insert k v d

  -- `remove`
  unfoldable pub erase : ℕ → Dict V → Dict V
  erase k [] = []
  erase k ((j, w) ∷ d) = let rest = erase k d in if j == k then rest else (j, w) ∷ rest

  -- `contains_key`
  abbrev pub contains : ℕ → Dict V → Bool
  contains k d = elim (lookup k d) [ none ↦ false | some _ ↦ true ]

  -- `values`
  unfoldable pub values : Dict V → List V
  values [] = []
  values ((j, v) ∷ d) = v ∷ values d

  pub contains-some : (k : ℕ) (d : Dict V) {v : V} → lookup k d ≡ some v → contains k d ≡ true
  contains-some k d h = ground (arith, h)

  pub contains-none : (k : ℕ) (d : Dict V) → lookup k d ≡ none → contains k d ≡ false
  contains-none k d h = ground (arith, h)

  pub lookup-insert :
      (j k : ℕ) (v : V) (d : Dict V)
      → lookup j (insert k v d) ≡ (if k == j then some v else lookup j d)
  unfolding lookup insert
  lookup-insert j k v [] = refl
  lookup-insert j k v ((i, w) ∷ d) = ground (arith, lookup-insert j k v d)

  pub lookup-erase :
      (j k : ℕ) (d : Dict V) → lookup j (erase k d) ≡ (if k == j then none else lookup j d)
  unfolding lookup erase
  lookup-erase j k [] = ground arith
  lookup-erase j k ((i, w) ∷ d) = ground (arith, lookup-erase j k d)

  -- What is found after an insertion is the inserted value or what was there.
  pub lookup-insert_cases :
      (j k : ℕ) (v : V) (d : Dict V) {w : V}
      → lookup j (insert k v d) ≡ some w
      → ((k ≡ j) × (v ≡ w)) ⊎ ((k ≢ j) × (lookup j d ≡ some w))
  lookup-insert_cases j k v d h = elim (ℕ_discrete k j) [
    | yes e ↦ inl (e, ground (arith, lookup-insert j k v d))
    | no ne ↦ inr (ne, ground (arith, lookup-insert j k v d))
  ]

  pub lookup-insert_self : (k : ℕ) (v : V) (d : Dict V) → lookup k (insert k v d) ≡ some v
  lookup-insert_self k v d = ground (arith, lookup-insert k k v d)

  pub lookup-insert_ne :
      (j k : ℕ) (v : V) (d : Dict V) → k ≢ j → lookup j (insert k v d) ≡ lookup j d
  lookup-insert_ne j k v d h = ground (arith, lookup-insert j k v d)

  -- A key that is not there is not at the head, and an insertion passes the head by.
  pub absent-cons :
      (k j : ℕ) (w : V) (d : Dict V)
      → lookup k ((j, w) ∷ d) ≡ none
      → ((j == k) ≡ false) × (lookup k d ≡ none)
  unfolding lookup
  absent-cons k j w d h = elim (ℕ_discrete j k) [
    | yes e ↦ ground (arith, h)
    | no ne ↦ (ground arith, ground (arith, h))
  ]

  pub insert-cons :
      (k j : ℕ) (v w : V) (d : Dict V)
      → (j == k) ≡ false
      → insert k v ((j, w) ∷ d) ≡ (j, w) ∷ insert k v d
  unfolding insert
  insert-cons k j v w d h = rw h refl

  -- Inserting what is there changes nothing.
  pub insert_self : (k : ℕ) (v : V) (d : Dict V) → lookup k d ≡ some v → insert k v d ≡ d
  unfolding lookup insert
  insert_self k v [] h = cc
  insert_self k v ((j, w) ∷ d) h = ground (arith, insert_self k v d)

  -- A new key goes to the end.
  pub insert-fresh :
      (k : ℕ) (v : V) (d : Dict V) → lookup k d ≡ none → insert k v d ≡ d ++ ((k, v) ∷ [])
  unfolding lookup insert
  insert-fresh k v [] h = refl
  insert-fresh k v ((j, w) ∷ d) h =
      let (off, gone) = absent-cons k j w d h in
      insert-cons k j v w d off ∙ ap (λ l. (j, w) ∷ l) (insert-fresh k v d gone)

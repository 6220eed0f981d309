-- ===== src/Common/Outcome.antt =====
-- What a method that can fail returns: a value, or an error of its component.
use mathlib.Core.Path.{◌≡◌, refl, ap}
use mathlib.Core.Bool.{Bool, true, false}
use mathlib.Core.Logic.{◌⊎◌, inl, inr}
use mutinynet_indexer.Common.Tests.{if◌then◌else◌}
use mathlib.Core.Option.{Option, none, some}

pub data Outcome {ε ℓ} (E : Type ε) (A : Type ℓ) : Type (ε ⊔ ℓ) where
  err : E → Outcome E A
  ok : A → Outcome E A

-- The question mark operator.
infixl 5 ◌>>=◌
abbrev pub ◌>>=◌ {ε ℓ κ} :
    {E : Type ε} {A : Type ℓ} {B : Type κ} → Outcome E A → (A → Outcome E B) → Outcome E B
err stop >>= next = err stop
ok value >>= next = next value

-- `Option::ok_or`
abbrev pub ok_or {ε ℓ} : {E : Type ε} {A : Type ℓ} → Option A → E → Outcome E A
ok_or (some value) stop = ok value
ok_or none stop = err stop

-- An early return, unless the test holds.
abbrev pub guard {ε} : {E : Type ε} → Bool → E → Outcome E (Unit {0})
guard false stop = err stop
guard true stop = ok tt

-- A chain succeeds only through a step that did.
pub >>=-eq-ok {ε ℓ κ} :
    {E : Type ε} {A : Type ℓ} {B : Type κ} (step : Outcome E A) (next : A → Outcome E B) {last : B}
    → (step >>= next) ≡ ok last
    → (value : A) × (step ≡ ok value) × (next value ≡ ok last)
>>=-eq-ok (err stop) next run = cc
>>=-eq-ok (ok value) next run = (value, refl, run)

pub ok-injective {ε ℓ} :
    {E : Type ε} {A : Type ℓ} {x y : A} → ◌≡◌ {A = Outcome E A} (ok x) (ok y) → x ≡ y
ok-injective run = cc

-- A conditional succeeds through one of its branches.
pub if-either {ε ℓ} :
    {E : Type ε} {A : Type ℓ} (test : Bool) (x y : Outcome E A) {value : A}
    → (if test then x else y) ≡ ok value
    → (x ≡ ok value) ⊎ (y ≡ ok value)
if-either true x y run = inl run
if-either false x y run = inr run

pub ok_or-eq-ok {ε ℓ} :
    {E : Type ε} {A : Type ℓ} (found : Option A) (stop : E) {value : A}
    → ok_or found stop ≡ ok value
    → found ≡ some value
ok_or-eq-ok (some a) stop run = ap some (ok-injective run)
ok_or-eq-ok none stop run = cc

-- ===== src/Cache/Headers/Requests/Locator.antt =====
-- The locator (`get_locator_heights`, vault-indexer/src/cache/headers.rs): which heights it samples.
use mutinynet_indexer.Common.{
  ℕ, zero, suc, ◌+◌, ◌*◌, ◌^◌, ◌≤◌, ◌<◌, ◌≡◌, refl, sym, ap, ◌∙◌, Bool, true, false, some, List, [],
  ◌∷◌, ◌++◌, length, length-append, map, arith, ltb, leb, if◌then◌else◌, ltb→lt, lt→ltb, get_elem?,
  get_elem?-some,
}
use mutinynet_indexer.Common.Int.{ℤ, pos, pos_part, ◌-ℤ◌}
use mathlib.Core.List.{append-nil, append_assoc}
use mutinynet_indexer.Cache.Block.{BlockHeader}
use mutinynet_indexer.Cache.Error.{ok}
use mutinynet_indexer.Cache.Headers.{HeadersCache, get_blockhash_at}
use mutinynet_indexer.Cache.Headers.Invariant.{IsValid}
use mutinynet_indexer.Cache.Headers.Requests.{
  locator_loop, get_locator_heights, hashes_at, get_height_locator,
}

-- Heights that go down strictly, all below the bound, to genesis and no further.
unfoldable pub IsDescent : ℕ → List ℕ → Type 0
IsDescent bound [] = ⊥
IsDescent bound (i ∷ []) = (i < bound) × (i ≡ 0)
IsDescent bound (i ∷ j ∷ is) = (i < bound) × IsDescent i (j ∷ is)

-- What the loop adds to the heights that it has, of which there are `n`.
unfoldable sample : ℕ → ℤ → ℕ → ℕ → List ℕ
sample zero i step n = []
sample (suc fuel) i step n =
    let step' = if leb 10 n then step * 2 else step in
    let rest = sample fuel (i -ℤ pos step') step' (n + 1) in
    if ltb 0 (pos_part i) then pos_part i ∷ rest else []

lower : (i : ℤ) (s : ℕ) → 1 ≤ s → 0 < pos_part i → pos_part (i -ℤ pos s) < pos_part i
unfolding ◌-ℤ◌
lower i s h lt = ground arith

step-positive : (t : Bool) (s : ℕ) → 1 ≤ s → 1 ≤ (if t then s * 2 else s)
step-positive true s h = omega arith
step-positive false s h = h

IsDescent-cons : (bound i : ℕ) (is : List ℕ) → i < bound → IsDescent i is → IsDescent bound (i ∷ is)
unfolding IsDescent
IsDescent-cons bound i [] lt h = absurd h
IsDescent-cons bound i (j ∷ is) lt h = (lt, h)

IsDescent-if :
    (t : Bool) (bound i : ℕ) (rest : List ℕ)
    → 0 < bound
    → (t ≡ true → i < bound)
    → (t ≡ true → IsDescent i (rest ++ (0 ∷ [])))
    → IsDescent bound ((if t then i ∷ rest else []) ++ (0 ∷ []))
unfolding IsDescent
IsDescent-if true bound i rest p lt h = IsDescent-cons bound i (rest ++ (0 ∷ [])) (lt refl) (h refl)
IsDescent-if false bound i rest p lt h = (p, refl)

sample-IsDescent :
    (fuel : ℕ) (i : ℤ) (step n bound : ℕ)
    → 1 ≤ step
    → pos_part i < bound
    → IsDescent bound (sample fuel i step n ++ (0 ∷ []))
unfolding sample
sample-IsDescent zero i step n bound h lt = unfold IsDescent in (omega arith, refl)
sample-IsDescent (suc fuel) i step n bound h lt =
    let step' : ℕ = if leb 10 n then step * 2 else step in
    let up : 1 ≤ step' = step-positive (leb 10 n) step h in
    IsDescent-if (ltb 0 (pos_part i)) bound (pos_part i)
      (sample fuel (i -ℤ pos step') step' (n + 1)) (omega arith) (λ _. lt)
      (λ on.
        sample-IsDescent fuel (i -ℤ pos step') step' (n + 1) (pos_part i) up
          (lower i step' up (ltb→lt 0 (pos_part i) on)))

append-if :
    (t : Bool) (xs ys zs : List ℕ) (x : ℕ)
    → zs ≡ (xs ++ (x ∷ [])) ++ ys
    → (if t then zs else xs) ≡ xs ++ (if t then x ∷ ys else [])
append-if true xs ys zs x h = h ∙ append_assoc xs (x ∷ []) ys
append-if false xs ys zs x h = sym (append-nil xs)

-- The loop appends its sample to what it has.
locator_loop-eq-sample :
    (fuel : ℕ) (i : ℤ) (step : ℕ) (is : List ℕ)
    → locator_loop fuel i step is ≡ is ++ sample fuel i step (length is)
unfolding locator_loop sample
locator_loop-eq-sample zero i step is = sym (append-nil is)
locator_loop-eq-sample (suc fuel) i step is =
    let step' : ℕ = if leb 10 (length is) then step * 2 else step in
    let size : length (is ++ (pos_part i ∷ [])) ≡ length is + 1 =
      length-append is (pos_part i ∷ []) in
    append-if (ltb 0 (pos_part i)) is (sample fuel (i -ℤ pos step') step' (length is + 1)) _
      (pos_part i)
      (locator_loop-eq-sample fuel (i -ℤ pos step') step' (is ++ (pos_part i ∷ []))
        ∙ ap (λ n. (is ++ (pos_part i ∷ [])) ++ sample fuel (i -ℤ pos step') step' n) size)

sample-stop : (fuel : ℕ) (i : ℤ) (step n : ℕ) → pos_part i ≡ 0 → sample fuel i step n ≡ []
unfolding sample
sample-stop zero i step n h = refl
sample-stop (suc fuel) i step n h = rw h refl

if_congr :
    (t : Bool) (x : ℕ) (xs ys : List ℕ)
    → (t ≡ true → xs ≡ ys)
    → (if t then x ∷ xs else []) ≡ (if t then x ∷ ys else [])
if_congr true x xs ys h = ap (λ l. x ∷ l) (h refl)
if_congr false x xs ys h = refl

sample-more :
    (fuel more : ℕ) (i : ℤ) (step n : ℕ)
    → 1 ≤ step
    → pos_part i ≤ fuel
    → fuel ≤ more
    → sample more i step n ≡ sample fuel i step n
unfolding sample
sample-more zero more i step n h enough le = sample-stop more i step n (omega arith)
sample-more (suc fuel) zero i step n h enough le = absurd (omega arith)
sample-more (suc fuel) (suc more) i step n h enough le =
    let step' : ℕ = if leb 10 n then step * 2 else step in
    let up : 1 ≤ step' = step-positive (leb 10 n) step h in
    if_congr (ltb 0 (pos_part i)) (pos_part i) _ _ (λ on.
      let less = lower i step' up (ltb→lt 0 (pos_part i) on) in
      sample-more fuel more (i -ℤ pos step') step' (n + 1) up (omega arith) (omega arith))

-- The loop of the locator ends by its own test: with more fuel it gives the same heights.
pub locator_loop-fuel :
    (more : ℕ) (i : ℤ) (is : List ℕ)
    → pos_part i + 1 ≤ more
    → locator_loop more i 1 is ≡ locator_loop (pos_part i + 1) i 1 is
locator_loop-fuel more i is le =
    locator_loop-eq-sample more i 1 is
    ∙ ap (λ l. is ++ l)
        (sample-more (pos_part i + 1) more i 1 (length is) (omega arith) (omega arith) le)
    ∙ sym (locator_loop-eq-sample (pos_part i + 1) i 1 is)

heights-eq-sample :
    (height : ℕ)
    → height < 2 ^ 31
    → get_locator_heights height ≡ sample (height + 1) (pos height) 1 0 ++ (0 ∷ [])
unfolding get_locator_heights
heights-eq-sample height small =
    rw (lt→ltb height (2 ^ 31) small)
      (ap (λ l. l ++ (0 ∷ [])) (locator_loop-eq-sample (height + 1) (pos height) 1 []))

first_height :
    (fuel h : ℕ) → h + 1 ≡ fuel → get_elem? (sample fuel (pos h) 1 0 ++ (0 ∷ [])) 0 ≡ some h
unfolding sample
first_height zero h e = absurd (omega (arith, e))
first_height (suc fuel) zero e = refl
first_height (suc fuel) (suc h) e = rw (lt→ltb 0 (suc h) (omega arith)) refl

-- The heights of the locator begin at the given height, below 2 ^ 31, and go down strictly to
-- genesis.
pub get_locator_heights-IsDescent :
    (height : ℕ)
    → height < 2 ^ 31
    → IsDescent (height + 1) (get_locator_heights height)
      × (get_elem? (get_locator_heights height) 0 ≡ some height)
get_locator_heights-IsDescent height small = (
  rw (heights-eq-sample height small)
      (sample-IsDescent (height + 1) (pos height) 1 0 (height + 1) (omega arith) (omega arith)),
  rw (heights-eq-sample height small) (first_height (height + 1) height refl),
)

module _ {H : Type 0} where
  hashes_at-IsDescent :
      (bound : ℕ) (is : List ℕ) (s : HeadersCache H)
      → IsDescent bound is
      → bound ≤ length s.main_chain
      → (hashes : List ℕ) × (hashes_at is s ≡ ok hashes)
        × (map some hashes ≡ map (get_elem? s.main_chain) is)
  unfolding hashes_at get_blockhash_at IsDescent
  hashes_at-IsDescent bound [] s h le = absurd h
  hashes_at-IsDescent bound (i ∷ []) s (lt, zero_end) le =
      let (x, found) = get_elem?-some s.main_chain i (omega arith) in
      (x ∷ [], rw found refl, rw found refl)
  hashes_at-IsDescent bound (i ∷ j ∷ is) s (lt, h) le =
      let (x, found) = get_elem?-some s.main_chain i (omega arith) in
      let (hashes, ran, same) = hashes_at-IsDescent i (j ∷ is) s h (omega arith) in
      (x ∷ hashes, rw (found, ran) refl, rw found (ap (λ l. some x ∷ l) same))

module _ {H : Type 0} ⦃b : BlockHeader H⦄ where
  -- In a well-formed cache of less than 2 ^ 31 headers, the locator for a height of the main chain
  -- is made without an error, and has the hashes of the main chain at the heights of the locator.
  pub get_height_locator-eq-map :
      (height : ℕ) (s : HeadersCache H)
      → IsValid s
      → height ≤ s.height
      → s.height < 2 ^ 31
      → (hashes : List ℕ) × (get_height_locator height s ≡ ok hashes)
        × (map some hashes ≡ map (get_elem? s.main_chain) (get_locator_heights height))
  unfolding get_height_locator
  get_height_locator-eq-map height s v le small =
      hashes_at-IsDescent (height + 1) (get_locator_heights height) s
        (get_locator_heights-IsDescent height (omega arith)).0 (omega (arith, v.size))

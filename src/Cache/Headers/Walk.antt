-- ===== src/Cache/Headers/Walk.antt =====
-- `get_chain_until` (vault-indexer/src/cache/headers.rs): the walk from a header towards genesis.
use mutinynet_indexer.Common.{
  ℕ, zero, suc, ◌+◌, ◌<◌, ◌≡◌, ◌≢◌, refl, ap, ◌∙◌, Bool, Option-cases, true, false, inl, inr, none,
  some, some, List, map, arith, get_elem?, drop, drop-eq-cons, ◌==◌, ==_iff, if◌then◌else◌,
}
use mutinynet_indexer.Common.Dict.{Dict, lookup}
use mutinynet_indexer.Cache.Block.{BlockHeader, block_hash, prev_blockhash, zero_hash}
use mutinynet_indexer.Cache.Error.{Result, ok, err, missing_header, out_of_fuel, ◌>>=◌}
use mutinynet_indexer.Cache.Chain
use mutinynet_indexer.Cache.Chain.{HeaderChain, push_root}
use mutinynet_indexer.Cache.Chain.Refines.{push_root-ok}
use mutinynet_indexer.Cache.Headers.{HeadersCache, walk, get_chain_until}
use mutinynet_indexer.Cache.Headers.Invariant.{IsForest, IsPath, Parented}
use mutinynet_indexer.Cache.Headers.Path.{path-entry, path-link, path-parent}
use mutinynet_indexer.Db.Header.{HeaderRecord}
use native.Mathlib.Decide.{ℕ_discrete}

if-fuel :
    {A : Type 0} (t : Bool) (m n : Result A)
    → m ≢ err out_of_fuel
    → n ≢ err out_of_fuel
    → (if t then m else n) ≢ err out_of_fuel
if-fuel true m n hm hn = hm
if-fuel false m n hm hn = hn

>>=-fuel :
    {A B : Type 0} (m : Result A) (f : A → Result B)
    → m ≢ err out_of_fuel
    → ((a : A) → m ≡ ok a → f a ≢ err out_of_fuel)
    → (m >>= f) ≢ err out_of_fuel
>>=-fuel (ok a) f hm hf = hf a refl
>>=-fuel (err e) f hm hf = λ q. hm (cc)

pub ==_false : (x y : ℕ) → x ≢ y → (x == y) ≡ false
==_false x y ne = ground arith

module _ {H : Type 0} ⦃b : BlockHeader H⦄ where
  push_root-result : (h : H) (c : HeaderChain H) → push_root h c ≢ err out_of_fuel
  unfolding push_root
  push_root-result h c e = ground arith

  -- No header has the zero hash.
  pub lookup-zero : (d : Dict (HeaderRecord H)) → IsForest d → lookup zero_hash d ≡ none
  lookup-zero d f = elim (Option-cases (lookup zero_hash d)) [
    | inl gone ↦ gone
    | inr (r, found) ↦ absurd (b.hash_ne_zero r.header (f.keyed zero_hash r found))
  ]

  -- In a forest the walk ends before its fuel does.
  walk-fuel :
      (fuel : ℕ) (pred : HeaderRecord H → Bool) (d : Dict (HeaderRecord H)) (cur : HeaderRecord H)
      (chain : HeaderChain H)
      → IsForest d
      → Parented d cur
      → cur.height < fuel
      → walk fuel pred d cur chain ≢ err out_of_fuel
  unfolding walk
  walk-fuel zero pred d cur chain f w lt = elim lt [ ]
  walk-fuel (suc fuel) pred d cur chain f (inl (at, bottom)) lt =
      rw (bottom, lookup-zero d f) (λ e. cc)
  walk-fuel (suc fuel) pred d cur chain f (inr (q, found, above)) lt = rw found (
      if-fuel (pred q) (ok chain) (push_root q.header chain >>= walk fuel pred d q) (λ e. cc)
        (>>=-fuel (push_root q.header chain) (walk fuel pred d q) (push_root-result q.header chain)
          (λ c pushed.
            walk-fuel fuel pred d q c f (f.parented (prev_blockhash cur.header) q found)
              (omega arith))))

  -- In a forest `get_chain_until` ends, with a chain or with an error of the source.
  pub get_chain_until-fuel :
      (tip : ℕ) (pred : HeaderRecord H → Bool) (s : HeadersCache H)
      → IsForest s.headers
      → get_chain_until tip pred s ≢ err out_of_fuel
  unfolding get_chain_until
  get_chain_until-fuel tip pred s f = elim (Option-cases (lookup tip s.headers)) [
    | inl gone ↦ rw gone (λ e. cc)
    | inr (cur, found) ↦ rw found (
        if-fuel (pred cur) (ok (Chain.new cur.header))
          (walk (cur.height + 1) pred s.headers cur (Chain.new cur.header)) (λ e. cc)
          (walk-fuel (cur.height + 1) pred s.headers cur (Chain.new cur.header) f
            (f.parented tip cur found) (omega arith)))
  ]

  -- In the middle of a walk down the main chain: the record at index `n`, and the chain above.
  pub record IsWalking (d : Dict (HeaderRecord H)) (mc : List ℕ) (n : ℕ) (cur : HeaderRecord H)
      (chain : HeaderChain H) : Type 0 where
    pub forest : IsForest d
    pub path : IsPath d zero_hash 0 mc
    pub stored : lookup (block_hash cur.header) d ≡ some cur
    pub at : get_elem? mc n ≡ some (block_hash cur.header)
    pub root : chain.root ≡ cur.header
    pub hashes : map block_hash (Chain.headers chain) ≡ drop n mc

  -- One step down the main chain.
  step_down :
      (d : Dict (HeaderRecord H)) (mc : List ℕ) (n : ℕ) (cur : HeaderRecord H)
      (chain : HeaderChain H)
      → IsWalking d mc (suc n) cur chain
      → (next : HeaderRecord H) × (chain' : HeaderChain H) × (lookup (prev_blockhash cur.header) d
          ≡ some next)
        × (push_root next.header chain ≡ ok chain')
        × IsWalking d mc n next chain'
  step_down d mc n cur chain w =
      let below : get_elem? mc n ≡ some (prev_blockhash cur.header) =
        path-link d zero_hash 0 mc n w.path w.at w.stored in
      let (next, found, height, flag) = path-entry d zero_hash 0 mc n w.path below in
      let key : block_hash next.header ≡ prev_blockhash cur.header =
        w.forest.keyed (prev_blockhash cur.header) next found in
      let (chain', pushed, grown, root) = push_root-ok next.header chain (rw w.root key) in
      (
        next,
        chain',
        found,
        pushed,
        record {
          forest = w.forest;
          path = w.path;
          stored = rw key found;
          at = rw key below;
          root = root;
          hashes = rw (grown, drop-eq-cons n mc below, w.hashes, key) refl;
        },
      )

  -- Two entries of the main chain with one hash stand at one index.
  pub main_chain-injective :
      (d : Dict (HeaderRecord H)) (mc : List ℕ) (i j : ℕ) {x : ℕ}
      → IsPath d zero_hash 0 mc
      → get_elem? mc i ≡ some x
      → get_elem? mc j ≡ some x
      → i ≡ j
  main_chain-injective d mc i j w e f =
      let (r, found, height, flag) = path-entry d zero_hash 0 mc i w e in
      let (r', found', height', flag') = path-entry d zero_hash 0 mc j w f in
      let same : r ≡ r' = cc in omega (arith, ap (λ (q : HeaderRecord H). q.height) same)

  -- The walk down the main chain stops above the entry that is looked for, and has collected what
  -- is above it.
  pub walk-found :
      (n k x : ℕ) (fuel : ℕ) (d : Dict (HeaderRecord H)) (mc : List ℕ) (cur : HeaderRecord H)
      (chain : HeaderChain H)
      → IsWalking d mc n cur chain
      → get_elem? mc k ≡ some x
      → k < n
      → n < fuel
      → (chain' : HeaderChain H) × (walk fuel (λ r. block_hash r.header == x) d cur chain
          ≡ ok chain')
        × (map block_hash (Chain.headers chain') ≡ drop (suc k) mc)
  unfolding walk
  walk-found zero k x fuel d mc cur chain w e lt enough = elim lt [ ]
  walk-found (suc n) k x zero d mc cur chain w e lt enough = elim enough [ ]
  walk-found (suc n) k x (suc fuel) d mc cur chain w e lt enough =
      let (next, chain', found, pushed, w') = step_down d mc n cur chain w in
      elim (ℕ_discrete (block_hash next.header) x) [
        | yes eq ↦
            (let same : n ≡ k = main_chain-injective d mc n k w.path (w'.at ∙ ap some eq) e in
              (
                chain,
                rw (found, (==_iff (block_hash next.header) x).1 eq) refl,
                rw (← same) w.hashes,
              ))
        | no ne ↦
            (let off : k ≢ n = λ eq. ne (cc) in
              let above : k < n = omega arith in
              let (chain'', ran, hashes) =
                walk-found n k x fuel d mc next chain' w' e above (omega arith) in
              (chain'', rw (found, ==_false (block_hash next.header) x ne, pushed) ran, hashes))
      ]

  -- Where the main chain does not have the hash, the walk runs past genesis.
  pub walk-missing :
      (n x : ℕ) (fuel : ℕ) (d : Dict (HeaderRecord H)) (mc : List ℕ) (cur : HeaderRecord H)
      (chain : HeaderChain H)
      → IsWalking d mc n cur chain
      → ((k : ℕ) → get_elem? mc k ≢ some x)
      → n < fuel
      → walk fuel (λ r. block_hash r.header == x) d cur chain ≡ err (missing_header zero_hash)
  unfolding walk
  walk-missing n x zero d mc cur chain w off enough = elim enough [ ]
  walk-missing zero x (suc fuel) d mc cur chain w off enough =
      let bottom : prev_blockhash cur.header ≡ zero_hash =
        path-parent d zero_hash 0 mc w.path w.at w.stored in
      rw (bottom, lookup-zero d w.forest) refl
  walk-missing (suc n) x (suc fuel) d mc cur chain w off enough =
      let (next, chain', found, pushed, w') = step_down d mc n cur chain w in
      let ne : block_hash next.header ≢ x = λ eq. off n (w'.at ∙ ap some eq) in
      rw (found, ==_false (block_hash next.header) x ne, pushed)
        (walk-missing n x fuel d mc next chain' w' off (omega arith))

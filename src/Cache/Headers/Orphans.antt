-- ===== src/Cache/Headers/Orphans.antt =====
-- `update_longest_chain` and `process_orphans` (vault-indexer/src/cache/headers.rs), which call one
-- another: whatever they return is well formed.
use mathlib.Core.Path.{subst}
use mutinynet_indexer.Common.{
  ℕ, zero, suc, ◌≡◌, ◌≢◌, refl, ◌∙◌, sym, false, none, some, List, [], ◌∷◌, inl, inr, Bool,
  if◌then◌else◌, ==_iff, Option-cases,
}
use mutinynet_indexer.Common.Dict.{
  Dict, lookup, insert, erase, values, contains-some, contains-none,
}
use mutinynet_indexer.Cache.Block.{BlockHeader, block_hash, prev_blockhash}
use mutinynet_indexer.Cache.Error.{Result, ok, >>=-eq-ok, ◌>>=◌}
use mutinynet_indexer.Cache.Headers.{HeadersCache}
use mutinynet_indexer.Cache.Headers.Sync.{
  extend_main, join_fork, stash, adopt, adoptable, remove_orphans, process_orphans,
  update_longest_chain,
}
use mutinynet_indexer.Cache.Headers.Invariant.{IsLinked, IsValid}
use mutinynet_indexer.Cache.Headers.Shelve.{IsTidy}
use mutinynet_indexer.Cache.Headers.Outcomes.{extend_main-appends}
use mutinynet_indexer.Cache.Headers.Update.{join_fork-IsValid}
use mutinynet_indexer.Cache.Headers.Walk.{==_false}
use native.Mathlib.Decide.{ℕ_discrete}
use mutinynet_indexer.Db.Header.{HeaderRecord}

-- The second and the third branch of a conditional.
ifs {ℓ} :
    {A : Type ℓ} {b c d : Bool} (x y z : A)
    → b ≡ false
    → c ≡ d
    → (if b then x else if c then y else z) ≡ (if d then y else z)
ifs x y z p q = rw (p, q) refl

module _ {H : Type 0} ⦃b : BlockHeader H⦄ where
  -- The orphans play no part in it.
  orphans-IsValid :
      (s : HeadersCache H) (o : Dict H) → IsValid s → IsValid (record s { orphans = o })
  orphans-IsValid s o v = record { forest = v.forest; path = v.path; size = v.size; tip = v.tip }

  stash-IsValid : (hs : List H) (s : HeadersCache H) → IsValid s → IsValid (stash hs s)
  unfolding stash
  stash-IsValid [] s v = v
  stash-IsValid (h ∷ hs) s v =
      stash-IsValid hs _ (orphans-IsValid s (insert (block_hash h) h s.orphans) v)

  remove_orphans-IsValid :
      (os : List H) (s : HeadersCache H) → IsValid s → IsValid (remove_orphans os s)
  unfolding remove_orphans
  remove_orphans-IsValid [] s v = v
  remove_orphans-IsValid (o ∷ os) s v =
      remove_orphans-IsValid os _ (orphans-IsValid s (erase (block_hash o) s.orphans) v)

  -- A call that keeps caches well formed.
  abbrev KeepsValid : (List H → HeadersCache H → Result (HeadersCache H)) → Type 0
  KeepsValid update =
      (o : H) (s s' : HeadersCache H) → IsValid s → update (o ∷ []) s ≡ ok s' → IsValid s'

  adopt-IsValid :
      (update : List H → HeadersCache H → Result (HeadersCache H)) (os : List H)
      (s s' : HeadersCache H)
      → KeepsValid update
      → IsValid s
      → adopt update os s ≡ ok s'
      → IsValid s'
  unfolding adopt
  adopt-IsValid update [] s s' keep v e = subst IsValid (cc) v
  adopt-IsValid update (o ∷ os) s s' keep v e =
      let (q, ran, rest) = >>=-eq-ok (update (o ∷ []) s) (adopt update os) e in
      adopt-IsValid update os q s' keep (keep o s q v ran) rest

  process_orphans-IsValid :
      (update : List H → HeadersCache H → Result (HeadersCache H)) (s s' : HeadersCache H)
      → KeepsValid update
      → IsValid s
      → process_orphans update s ≡ ok s'
      → IsValid s'
  unfolding process_orphans
  process_orphans-IsValid update s s' keep v e =
      let adopted : List H = adoptable s.headers (values s.orphans) in
      let (q, ran, rest) =
        >>=-eq-ok (adopt update adopted s) (λ q. ok (remove_orphans adopted q)) e in
      subst IsValid (cc)
        (remove_orphans-IsValid adopted q (adopt-IsValid update adopted s q keep v ran))

  -- The three branches of `update_longest_chain`.
  pub update-extend :
      (fuel : ℕ) (first : H) (rest : List H) (s : HeadersCache H)
      → s.best_tip ≡ prev_blockhash first
      → update_longest_chain (suc fuel) (first ∷ rest) s
        ≡ (extend_main (first ∷ rest) s >>= process_orphans (update_longest_chain fuel))
  unfolding update_longest_chain
  update-extend fuel first rest s e = rw ((==_iff s.best_tip (prev_blockhash first)).1 e) refl

  pub update-join :
      (fuel : ℕ) (first : H) (rest : List H) (s : HeadersCache H) {q : HeaderRecord H}
      → s.best_tip ≢ prev_blockhash first
      → lookup (prev_blockhash first) s.headers ≡ some q
      → update_longest_chain (suc fuel) (first ∷ rest) s
        ≡ (join_fork first rest s >>= process_orphans (update_longest_chain fuel))
  unfolding update_longest_chain
  update-join fuel first rest s ne found =
      ifs _ _ _ (==_false s.best_tip (prev_blockhash first) ne) (contains-some _ _ found)

  pub update-stash :
      (fuel : ℕ) (first : H) (rest : List H) (s : HeadersCache H)
      → s.best_tip ≢ prev_blockhash first
      → lookup (prev_blockhash first) s.headers ≡ none
      → update_longest_chain (suc fuel) (first ∷ rest) s ≡ ok (stash (first ∷ rest) s)
  unfolding update_longest_chain
  update-stash fuel first rest s ne gone =
      ifs _ _ _ (==_false s.best_tip (prev_blockhash first) ne) (contains-none _ _ gone)

  pub no-fuel :
      (hs : List H) (s : HeadersCache H) {s' : HeadersCache H}
      → update_longest_chain zero hs s ≢ ok s'
  unfolding update_longest_chain
  no-fuel hs s e = cc

  -- A cache stays well formed when linked headers arrive, whatever becomes of them: they extend
  -- the main chain, replace a part of it, are stored beside it, or are put aside as orphans, and
  -- orphans are adopted. What is asked for is that the headers are linked and that either all of
  -- them are new or there is only one.
  pub update_longest_chain-IsValid :
      (fuel : ℕ) (first : H) (rest : List H) (s s' : HeadersCache H)
      → IsValid s
      → IsLinked (prev_blockhash first) (first ∷ rest)
      → IsTidy s.headers (first ∷ rest)
      → update_longest_chain fuel (first ∷ rest) s ≡ ok s'
      → IsValid s'
  update_longest_chain-IsValid zero first rest s s' v linked tidy e =
      absurd (no-fuel (first ∷ rest) s e)
  update_longest_chain-IsValid (suc fuel) first rest s s' v linked tidy e =
      let keep : KeepsValid (update_longest_chain fuel) =
        λ o q q' w ran. update_longest_chain-IsValid fuel o [] q q' w (refl, tt) (inr refl) ran in
      elim (ℕ_discrete s.best_tip (prev_blockhash first)) [
        | yes tip ↦
            (let (q, ran, rest_run) =
                >>=-eq-ok (extend_main (first ∷ rest) s)
                  (process_orphans (update_longest_chain fuel))
                  (sym (update-extend fuel first rest s tip) ∙ e) in
              let (q', ran', valid, chain, height) =
                extend_main-appends (first ∷ rest) s v (rw tip linked) in
              let same : q' ≡ q = cc in
              process_orphans-IsValid (update_longest_chain fuel) q s' keep
                (subst IsValid same valid) rest_run)
        | no ne ↦ elim (Option-cases (lookup (prev_blockhash first) s.headers)) [
          | inl gone ↦
              (let same : stash (first ∷ rest) s ≡ s' =
                  cc (update-stash fuel first rest s ne gone) in
                subst IsValid same (stash-IsValid (first ∷ rest) s v))
          | inr (p, found) ↦
              (let (q, ran, rest_run) =
                  >>=-eq-ok (join_fork first rest s) (process_orphans (update_longest_chain fuel))
                    (sym (update-join fuel first rest s ne found) ∙ e) in
                process_orphans-IsValid (update_longest_chain fuel) q s' keep
                  (join_fork-IsValid s p first rest v found ne linked tidy ran) rest_run)
        ]
      ]

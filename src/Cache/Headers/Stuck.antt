-- ===== src/Cache/Headers/Stuck.antt =====
-- Orphans that are stored already (vault-indexer/src/cache/headers.rs): `process_orphans` comes back
-- to them again and again.
use mathlib.Core.Path.{subst}
use mutinynet_indexer.Common.{
  ℕ, zero, suc, ◌≡◌, ◌≢◌, refl, sym, ◌∙◌, true, some, List, [], ◌∷◌, inl, inr, Option-cases,
  Bool-cases, arith,
}
use mutinynet_indexer.Common.Dict.{Dict, lookup, values, contains, contains-some, contains-none}
use mutinynet_indexer.Cache.Block.{BlockHeader, block_hash, prev_blockhash}
use mutinynet_indexer.Cache.Error.{ok, >>=-eq-ok, ◌>>=◌}
use mutinynet_indexer.Cache.Headers.{HeadersCache}
use mutinynet_indexer.Cache.Headers.Orphans.{update-extend, update-join, no-fuel}
use mutinynet_indexer.Cache.Headers.Sync.{
  extend_main, join_fork, adopt, adoptable, process_orphans, remove_orphans, update_longest_chain,
}
use native.Mathlib.Decide.{ℕ_discrete}
use mutinynet_indexer.Cache.Headers.Keep.{IsStored, Grows, extend_main-Grows, join_fork-Grows}

module _ {H : Type 0} ⦃b : BlockHeader H⦄ where
  -- A header that is stored, as is its parent, and is an orphan all the same.
  pub record IsStuck (o : H) (s : HeadersCache H) : Type 0 where
    pub orphan : lookup (block_hash o) s.orphans ≡ some o
    pub stored : IsStored (block_hash o) s
    pub parent : IsStored (prev_blockhash o) s

  Grows-IsStuck : (o : H) {s s' : HeadersCache H} → Grows s s' → IsStuck o s → IsStuck o s'
  Grows-IsStuck o g i = record {
    orphan = g.orphans (block_hash o) i.stored ∙ i.orphan;
    stored = g.stored (block_hash o) i.stored;
    parent = g.stored (prev_blockhash o) i.parent;
  }

  contains-IsStored : (h : ℕ) (s : HeadersCache H) → contains h s.headers ≡ true → IsStored h s
  contains-IsStored h s e = elim (Option-cases (lookup h s.headers)) [
    | inl gone ↦ (let no = contains-none h s.headers gone in cc)
    | inr found ↦ found
  ]

  -- Where an orphan has its parent stored, some orphan is adopted first.
  adoptable-some :
      (s : HeadersCache H) (k : ℕ) (o : H) (d : Dict H)
      → lookup k d ≡ some o
      → IsStored (prev_blockhash o) s
      → (a : H) × (more : List H) × (adoptable s.headers (values d) ≡ a ∷ more)
        × IsStored (prev_blockhash a) s
  unfolding adoptable values lookup
  adoptable-some s k o [] e i = cc
  adoptable-some s k o ((j, v) ∷ d) e i =
      elim (Bool-cases (contains (prev_blockhash v) s.headers)) [
        | inl known ↦
            (v, adoptable s.headers (values d), rw known refl, contains-IsStored _ s known)
        | inr unknown ↦ elim (ℕ_discrete j k) [
          | yes eq ↦
              (let same : v ≡ o = ground (arith, e) in
                let known = contains-some (prev_blockhash o) s.headers i.1 in cc)
          | no ne ↦
              (let (a, more, split, at) = adoptable-some s k o d (ground (arith, e)) i in
                (a, more, rw unknown split, at))
        ]
      ]

  -- `process_orphans` and `adopt`, opened.
  process_orphans-eq :
      (fuel : ℕ) (q : HeadersCache H) {s' : HeadersCache H}
      → process_orphans (update_longest_chain fuel) q ≡ ok s'
      → (adopt (update_longest_chain fuel) (adoptable q.headers (values q.orphans)) q
          >>= (λ t. ok (remove_orphans (adoptable q.headers (values q.orphans)) t)))
        ≡ ok s'
  unfolding process_orphans
  process_orphans-eq fuel q h = h

  adopt-eq :
      (fuel : ℕ) (a : H) (more : List H) (q : HeadersCache H) {l : List H} {t : HeadersCache H}
      → l ≡ a ∷ more
      → adopt (update_longest_chain fuel) l q ≡ ok t
      → (update_longest_chain fuel (a ∷ []) q >>= adopt (update_longest_chain fuel) more) ≡ ok t
  unfolding adopt
  adopt-eq fuel a more q {t = t} split h =
      subst (λ l. adopt (update_longest_chain fuel) l q ≡ ok t) split h

  never_returns :
      (fuel : ℕ) (o first : H) (rest : List H) (s s' : HeadersCache H)
      → IsStuck o s
      → IsStored (prev_blockhash first) s
      → update_longest_chain fuel (first ∷ rest) s ≢ ok s'
  never_returns zero o first rest s s' i known e = no-fuel (first ∷ rest) s e
  never_returns (suc fuel) o first rest s s' i known e =
      let never : (q : HeadersCache H)
          → Grows s q
          → process_orphans (update_longest_chain fuel) q ≢ ok s' =
        λ q g h.
          let i' : IsStuck o q = Grows-IsStuck o g i in
          let (a, more, split, at) =
            adoptable-some q (block_hash o) o q.orphans i'.orphan i'.parent in
          let (t, ran, last) =
            >>=-eq-ok (adopt (update_longest_chain fuel) (adoptable q.headers (values q.orphans)) q)
              _ (process_orphans-eq fuel q h) in
          let (u, ran', rest_run) =
            >>=-eq-ok (update_longest_chain fuel (a ∷ []) q)
              (adopt (update_longest_chain fuel) more) (adopt-eq fuel a more q split ran) in
          never_returns fuel o a [] q u i' at ran' in
      elim (ℕ_discrete s.best_tip (prev_blockhash first)) [
        | yes tip ↦
            (let (q, ran, h) =
                >>=-eq-ok (extend_main (first ∷ rest) s)
                  (process_orphans (update_longest_chain fuel))
                  (sym (update-extend fuel first rest s tip) ∙ e) in
              never q (extend_main-Grows (first ∷ rest) s ran) h)
        | no ne ↦
            (let (q, ran, h) =
                >>=-eq-ok (join_fork first rest s) (process_orphans (update_longest_chain fuel))
                  (sym (update-join fuel first rest s ne known.1) ∙ e) in
              never q (join_fork-Grows first rest s ran) h)
      ]

  -- As long as a header is an orphan although it is stored with its parent, no call of
  -- `update_longest_chain` for headers whose parent is stored returns, however deep it may go, but
  -- with an error: `process_orphans` calls it again for an orphan that stays.
  pub update_longest_chain-IsStuck :
      (fuel : ℕ) (o first : H) (rest : List H) (s : HeadersCache H)
      → IsStuck o s
      → IsStored (prev_blockhash first) s
      → ¬ ((s' : HeadersCache H) × (update_longest_chain fuel (first ∷ rest) s ≡ ok s'))
  update_longest_chain-IsStuck fuel o first rest s i known (s', e) =
      never_returns fuel o first rest s s' i known e

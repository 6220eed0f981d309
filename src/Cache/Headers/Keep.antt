-- ===== src/Cache/Headers/Keep.antt =====
-- What `update_longest_chain` leaves in the cache (vault-indexer/src/cache/headers.rs): headers that
-- are stored, and orphans of the same hash.
use mathlib.Core.Path.{subst}
use mutinynet_indexer.Common.{
  ℕ, ◌+◌, ◌≡◌, refl, ap, sym, ◌∙◌, Bool, true, false, none, some, List, [], ◌∷◌, ◌++◌, inl, inr,
  Option-cases, arith, ltb, ◌==◌,
}
use mutinynet_indexer.Common.Dict.{
  Dict, lookup, insert, erase, lookup-insert_self, lookup-insert_ne, lookup-erase,
}
use mutinynet_indexer.Cache.Block.{BlockHeader, block_hash, prev_blockhash}
use mutinynet_indexer.Cache.Error.{ok, ok_or, missing_header, ok-injective, >>=-eq-ok, ◌>>=◌}
use mutinynet_indexer.Cache.Chain
use mutinynet_indexer.Cache.Chain.{HeaderChain}
use mutinynet_indexer.Cache.Headers.{
  HeadersCache, write, clear_flags, skip_root, inactivate, activate_one, activate, store_active,
  shelve_one, shelve, store_inactive, get_header, get_chain_until,
}
use mutinynet_indexer.Cache.Headers.Notes.{Notes, Notes-refl, Notes-trans, Notes-insert}
use mutinynet_indexer.Cache.Headers.Sync.{extend_main, join_fork}
use mutinynet_indexer.Db.Header.{HeaderRecord}
use native.Mathlib.Decide.{ℕ_discrete}
use mutinynet_indexer.Common.Outcome.{if-either, ok_or-eq-ok}

module _ {H : Type 0} ⦃b : BlockHeader H⦄ where
  abbrev pub IsStored : ℕ → HeadersCache H → Type 0
  IsStored h s = (r : HeaderRecord H) × (lookup h s.headers ≡ some r)

  -- What is stored stays stored, and an orphan that is stored stays an orphan.
  pub record Grows (s s' : HeadersCache H) : Type 0 where
    pub stored : (h : ℕ) → IsStored h s → IsStored h s'
    pub orphans : (h : ℕ) → IsStored h s → lookup h s'.orphans ≡ lookup h s.orphans
    pub no_orphan : s.orphans ≡ [] → s'.orphans ≡ []
    pub notes : Notes s s'

  Grows-refl : (s : HeadersCache H) → Grows s s
  Grows-refl s = record {
    stored = λ h i. i;
    orphans = λ h i. refl;
    no_orphan = λ e. e;
    notes = Notes-refl s;
  }

  Grows-trans : {s t u : HeadersCache H} → Grows s t → Grows t u → Grows s u
  Grows-trans g g' = record {
    stored = λ h i. g'.stored h (g.stored h i);
    orphans = λ h i. g'.orphans h (g.stored h i) ∙ g.orphans h i;
    no_orphan = λ e. g'.no_orphan (g.no_orphan e);
    notes = Notes-trans g.notes g'.notes;
  }

  insert-IsStored :
      (k : ℕ) (v : HeaderRecord H) (d : Dict (HeaderRecord H)) (h : ℕ)
      → ((r : HeaderRecord H) × (lookup h d ≡ some r))
      → ((r : HeaderRecord H) × (lookup h (insert k v d) ≡ some r))
  insert-IsStored k v d h i = elim (ℕ_discrete k h) [
    | yes e ↦ (v, cc (lookup-insert_self k v d, e))
    | no ne ↦ (i.0, lookup-insert_ne h k v d ne ∙ i.1)
  ]

  marked_same :
      (d : Dict (HeaderRecord H)) (k : ℕ) (old : HeaderRecord H) (flag : Bool)
      → lookup k d ≡ some old
      → (r : HeaderRecord H) → lookup k d ≡ some r
      → ((record old { in_longest = flag }).header ≡ r.header)
        × ((record old { in_longest = flag }).height ≡ r.height)
  marked_same d k old flag found r found' =
      let same : old ≡ r = cc in
      (ap (λ (q : HeaderRecord H). q.header) same, ap (λ (q : HeaderRecord H). q.height) same)

  -- A header that is not stored takes its place among the headers.
  taken :
      (k : ℕ) (v : HeaderRecord H) (s : HeadersCache H) (main_chain : List ℕ)
      → lookup k s.headers ≡ none
      → Grows s (record s {
        headers = insert k v s.headers;
        main_chain = main_chain;
        orphans = erase k s.orphans;
        dirty = s.dirty ++ (k ∷ []);
      })
  unfolding erase
  taken k v s main_chain new = record {
    stored = insert-IsStored k v s.headers;
    orphans = λ h i. elim (ℕ_discrete k h) [
      | yes e ↦ (let found = i.1 in cc)
      | no ne ↦ ground (arith, lookup-erase h k s.orphans)
    ];
    no_orphan = λ e. ap (erase k) e;
    notes = Notes-insert k v s _ (λ old e. cc) refl refl;
  }

  -- A record changes its mark.
  marked :
      (k : ℕ) (old : HeaderRecord H) (flag : Bool) (s : HeadersCache H) (main_chain : List ℕ)
      → lookup k s.headers ≡ some old
      → Grows s (record s {
        headers = insert k (record old { in_longest = flag }) s.headers;
        main_chain = main_chain;
        dirty = s.dirty ++ (k ∷ []);
      })
  marked k old flag s main_chain found = record {
    stored = insert-IsStored k (record old { in_longest = flag }) s.headers;
    orphans = λ h i. refl;
    no_orphan = λ e. e;
    notes =
        Notes-insert k (record old { in_longest = flag }) s _
          (marked_same s.headers k old flag found) refl refl;
  }

  clear_flags-Grows :
      (hs : List H) (s : HeadersCache H) {s' : HeadersCache H}
      → clear_flags hs s ≡ ok s'
      → Grows s s'
  unfolding clear_flags
  clear_flags-Grows [] s e = subst (Grows s) (ok-injective e) (Grows-refl s)
  clear_flags-Grows (h ∷ hs) s e =
      let k : ℕ = block_hash h in
      let (r, ran, rest) = >>=-eq-ok (ok_or (lookup k s.headers) (missing_header k)) _ e in
      Grows-trans (marked k r false s s.main_chain (ok_or-eq-ok (lookup k s.headers) _ ran))
        (clear_flags-Grows hs _ rest)

  inactivate-Grows :
      (c : HeaderChain H) (s : HeadersCache H) {s' : HeadersCache H}
      → inactivate c s ≡ ok s'
      → Grows s s'
  unfolding inactivate
  inactivate-Grows c s e =
      let (t, ran, e') = >>=-eq-ok (clear_flags (skip_root c) s) _ e in
      let (r, ran', last) = >>=-eq-ok (get_header (Chain.root_hash c) t) _ e' in
      let g : Grows s t = clear_flags-Grows (skip_root c) s ran in
      subst (Grows s) (ok-injective last) (record {
        stored = g.stored;
        orphans = g.orphans;
        no_orphan = g.no_orphan;
        notes = record {
          kept = g.notes.kept;
          noted = g.notes.noted;
          still = g.notes.still;
          stored = g.notes.stored;
        };
      })

  activate_one-Grows :
      (h : H) (p : HeaderRecord H) (s : HeadersCache H) {t : HeaderRecord H × HeadersCache H}
      → activate_one h p s ≡ ok t
      → Grows s t.1
  unfolding activate_one
  activate_one-Grows h p s {t} e =
      let k : ℕ = block_hash h in
      elim (Option-cases (lookup k s.headers)) [
        | inl new ↦
            (let r : HeaderRecord H = record {
              header = h;
              height = p.height + 1;
              in_longest = true;
            } in
              let step : (write r.height k s.main_chain >>= (λ main_chain. ok (
                r,
                record s {
                  headers = insert k r s.headers;
                  main_chain = main_chain;
                  orphans = erase k s.orphans;
                  dirty = s.dirty ++ (k ∷ []);
                },
              )))
                  ≡ ok t =
                sym (rw (new, activate_one) refl) ∙ e in
              let (main_chain, ran, last) = >>=-eq-ok (write r.height k s.main_chain) _ step in
              subst (λ t. Grows s t.1) (ok-injective last) (taken k r s main_chain new))
        | inr (old, found) ↦
            (let r : HeaderRecord H = record old { in_longest = true } in
              let step : (write old.height k s.main_chain >>= (λ main_chain. ok (
                r,
                record s {
                  headers = insert k r s.headers;
                  main_chain = main_chain;
                  dirty = s.dirty ++ (k ∷ []);
                },
              )))
                  ≡ ok t =
                sym (rw (found, activate_one) refl) ∙ e in
              let (main_chain, ran, last) = >>=-eq-ok (write old.height k s.main_chain) _ step in
              subst (λ t. Grows s t.1) (ok-injective last) (marked k old true s main_chain found))
      ]

  activate-Grows :
      (hs : List H) (p : HeaderRecord H) (s : HeadersCache H) {s' : HeadersCache H}
      → activate hs p s ≡ ok s'
      → Grows s s'
  unfolding activate
  activate-Grows [] p s e = subst (Grows s) (ok-injective e) (Grows-refl s)
  activate-Grows (h ∷ hs) p s e =
      let (t, ran, rest) = >>=-eq-ok (activate_one h p s) _ e in
      Grows-trans (activate_one-Grows h p s ran) (activate-Grows hs t.0 t.1 rest)

  store_active-Grows :
      (c : HeaderChain H) (s : HeadersCache H) {s' : HeadersCache H}
      → store_active c s ≡ ok s'
      → Grows s s'
  unfolding store_active
  store_active-Grows c s e =
      let (p, ran, e') =
        >>=-eq-ok
          (ok_or (lookup (Chain.root_hash c) s.headers) (missing_header (Chain.root_hash c))) _ e in
      let (t, ran', last) = >>=-eq-ok (activate (Chain.headers c) p _) _ e' in
      let g = activate-Grows (Chain.headers c) p _ ran' in
      subst (Grows s) (ok-injective last) (record {
        stored = g.stored;
        orphans = g.orphans;
        no_orphan = g.no_orphan;
        notes = record {
          kept = g.notes.kept;
          noted = g.notes.noted;
          still = g.notes.still;
          stored = g.notes.stored;
        };
      })

  shelve_one-Grows :
      (h : H) (p : HeaderRecord H) (s : HeadersCache H) → Grows s (shelve_one h p s).1
  unfolding shelve_one
  shelve_one-Grows h p s =
      let k : ℕ = block_hash h in
      elim (Option-cases (lookup k s.headers)) [
        | inl new ↦ rw (new, shelve_one) (taken k _ s s.main_chain new)
        | inr (old, found) ↦ rw (found, shelve_one) (Grows-refl s)
      ]

  shelve-Grows : (hs : List H) (p : HeaderRecord H) (s : HeadersCache H) → Grows s (shelve hs p s)
  unfolding shelve
  shelve-Grows [] p s = Grows-refl s
  shelve-Grows (h ∷ hs) p s =
      let t = shelve_one h p s in Grows-trans (shelve_one-Grows h p s) (shelve-Grows hs t.0 t.1)

  store_inactive-Grows :
      (c : HeaderChain H) (s : HeadersCache H) {s' : HeadersCache H}
      → store_inactive c s ≡ ok s'
      → Grows s s'
  unfolding store_inactive
  store_inactive-Grows c s e =
      let (p, ran, last) =
        >>=-eq-ok
          (ok_or (lookup (Chain.root_hash c) s.headers) (missing_header (Chain.root_hash c))) _ e in
      subst (Grows s) (ok-injective last) (shelve-Grows (Chain.headers c) p s)

  pub extend_main-Grows :
      (hs : List H) (s : HeadersCache H) {s' : HeadersCache H}
      → extend_main hs s ≡ ok s'
      → Grows s s'
  unfolding extend_main
  extend_main-Grows hs s e =
      let (tip, ran, rest) = >>=-eq-ok (get_header s.best_tip s) _ e in
      store_active-Grows (Chain.from_headers tip.header hs) s rest

  pub join_fork-Grows :
      (first : H) (rest : List H) (s : HeadersCache H) {s' : HeadersCache H}
      → join_fork first rest s ≡ ok s'
      → Grows s s'
  unfolding join_fork
  join_fork-Grows first rest s e =
      let (base, r₁, e₁) =
        >>=-eq-ok (get_chain_until (prev_blockhash first) (λ r. r.in_longest) s) _ e in
      let (fork, r₂, e₂) = >>=-eq-ok (Chain.extend_tip (first ∷ rest) base) _ e₁ in
      let (main, r₃, e₃) =
        >>=-eq-ok (get_chain_until s.best_tip (λ r. block_hash r.header == Chain.root_hash fork) s)
          _ e₂ in
      elim (if-either (ltb (Chain.total_work main) (Chain.total_work fork))
        (inactivate main s >>= store_active fork) (store_inactive fork s) e₃) [
          | inl wins ↦
              (let (t, cut, grown) = >>=-eq-ok (inactivate main s) (store_active fork) wins in
                Grows-trans (inactivate-Grows main s cut) (store_active-Grows fork t grown))
          | inr loses ↦ store_inactive-Grows fork s loses
        ]

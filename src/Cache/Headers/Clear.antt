-- ===== src/Cache/Headers/Clear.antt =====
-- `inactivate` (vault-indexer/src/cache/headers.rs): what a reorganization takes off the main chain.
use mutinynet_indexer.Common.{
  ℕ, suc, ◌≤◌, ◌<◌, ◌≡◌, refl, ap, ◌∙◌, false, some, List, [], ◌∷◌, ◌++◌, map, arith,
}
use mutinynet_indexer.Common.Dict.{Dict, lookup, insert, lookup-insert_ne}
use mutinynet_indexer.Cache.Block.{BlockHeader, block_hash}
use mutinynet_indexer.Cache.Error.{ok}
use mutinynet_indexer.Cache.Headers.{HeadersCache, clear_flags}
use mutinynet_indexer.Cache.Headers.Invariant.{IsForest, IsPath}
use mutinynet_indexer.Cache.Headers.Forest.{KeepsHeights, KeepsHeights-insert, IsForest-insert}
use mutinynet_indexer.Db.Header.{HeaderRecord}

module _ {H : Type 0} ⦃b : BlockHeader H⦄ where
  -- The headers are stored above the height `k`.
  abbrev pub AllAbove : Dict (HeaderRecord H) → ℕ → List H → Type 0
  AllAbove d k [] = Unit {0}
  AllAbove d k (h ∷ hs) =
      ((r : HeaderRecord H) × (lookup (block_hash h) d ≡ some r) × (k < r.height)) × AllAbove d k hs

  AllAbove-keep :
      (d d' : Dict (HeaderRecord H)) (k : ℕ) (hs : List H)
      → KeepsHeights d d'
      → AllAbove d k hs
      → AllAbove d' k hs
  AllAbove-keep d d' k [] keeps a = tt
  AllAbove-keep d d' k (h ∷ hs) keeps a =
      let (r, found, same) = keeps.kept (block_hash h) a.0.0 a.0.1 in
      ((r, found, rw same a.0.2), AllAbove-keep d d' k hs keeps a.1)

  -- A path above the height `k` is stored above it.
  pub path-AllAbove :
      (d : Dict (HeaderRecord H)) (p n k : ℕ) (hs : List H)
      → IsPath d p n (map block_hash hs)
      → k < n
      → AllAbove d k hs
  path-AllAbove d p n k [] w lt = tt
  path-AllAbove d p n k (h ∷ hs) w lt = (
    (w.0.0, w.0.1, omega (arith, w.0.2)),
    path-AllAbove d (block_hash h) (suc n) k hs w.1 (omega arith),
  )

  -- What clearing flags above the height `k` leaves as it was.
  pub record Cleared (s s' : HeadersCache H) (k : ℕ) : Type 0 where
    pub forest : IsForest s'.headers
    pub keeps : KeepsHeights s.headers s'.headers
    pub low :
        (h : ℕ) (r : HeaderRecord H)
        → lookup h s.headers ≡ some r
        → r.height ≤ k
        → lookup h s'.headers ≡ some r
    pub main_chain : s'.main_chain ≡ s.main_chain
    pub orphans : s'.orphans ≡ s.orphans

  Cleared-refl : (s : HeadersCache H) (k : ℕ) → IsForest s.headers → Cleared s s k
  Cleared-refl s k f = record {
    forest = f;
    keeps = record { kept = λ h r found. (r, found, refl) };
    low = λ h r found le. found;
    main_chain = refl;
    orphans = refl;
  }

  Cleared-trans :
      (s s' s'' : HeadersCache H) (k : ℕ) → Cleared s s' k → Cleared s' s'' k → Cleared s s'' k
  Cleared-trans s s' s'' k c c' = record {
    forest = c'.forest;
    keeps = record {
      kept = λ h r found.
          let (r', found', same) = c.keeps.kept h r found in
          let (r'', found'', same') = c'.keeps.kept h r' found' in (r'', found'', same' ∙ same);
    };
    low = λ h r found le. c'.low h r (c.low h r found le) le;
    main_chain = c'.main_chain ∙ c.main_chain;
    orphans = c'.orphans ∙ c.orphans;
  }

  -- One flag.
  Cleared-one :
      (s : HeadersCache H) (k x : ℕ) (r : HeaderRecord H)
      → IsForest s.headers
      → lookup x s.headers ≡ some r
      → k < r.height
      → Cleared s
          (record s {
            headers = insert x (record r { in_longest = false }) s.headers;
            dirty = s.dirty ++ (x ∷ []);
          })
          k
  Cleared-one s k x r f found lt =
      let r' : HeaderRecord H = record r { in_longest = false } in
      let same : (old : HeaderRecord H) → lookup x s.headers ≡ some old → r'.height ≡ old.height =
        λ old e. let eq : r ≡ old = cc in ap (λ (q : HeaderRecord H). q.height) eq in
      record {
        forest = IsForest-insert x r' s.headers (f.keyed x r found) (f.parented x r found) same f;
        keeps = KeepsHeights-insert x r' s.headers same;
        low = λ h q e le.
            lookup-insert_ne h x r' s.headers (λ eq.
              let this : q ≡ r = cc in
              let high : q.height ≡ r.height = ap (λ (o : HeaderRecord H). o.height) this in
              omega arith)
            ∙ e;
        main_chain = refl;
        orphans = refl;
      }

  pub clear_flags-Cleared :
      (hs : List H) (s : HeadersCache H) (k : ℕ)
      → IsForest s.headers
      → AllAbove s.headers k hs
      → (s' : HeadersCache H) × (clear_flags hs s ≡ ok s') × Cleared s s' k
  unfolding clear_flags
  clear_flags-Cleared [] s k f a = (s, refl, Cleared-refl s k f)
  clear_flags-Cleared (h ∷ hs) s k f a =
      let (r, found, lt) = a.0 in
      let one = Cleared-one s k (block_hash h) r f found lt in
      let (s', ran, c) =
        clear_flags-Cleared hs _ k one.forest (AllAbove-keep _ _ k hs one.keeps a.1) in
      (s', rw found ran, Cleared-trans s _ s' k one c)

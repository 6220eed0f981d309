-- ===== src/Cache/Headers/Update.antt =====
-- `update_longest_chain` and `process_orphans` (vault-indexer/src/cache/headers.rs) keep a cache
-- well formed.
use mathlib.Core.Path.{subst}
use native.Mathlib.Decide.{ℕ_discrete, dec_lt}
use mutinynet_indexer.Common.{
  ℕ, suc, ◌+◌, ◌<◌, ◌≡◌, ◌≢◌, refl, ap, ◌∙◌, sym, true, some, List, ◌∷◌, ◌⊎◌, inl, inr, arith,
  length, drop, get_elem?, get_elem?-lt, Bool-cases, Option-cases,
}
use mutinynet_indexer.Common.Dict.{lookup}
use mutinynet_indexer.Cache.Block.{BlockHeader, block_hash, prev_blockhash, work, zero_hash}
use mutinynet_indexer.Cache.Error.{ok, err, missing_header}
use mutinynet_indexer.Cache.Chain
use mutinynet_indexer.Cache.Chain.Refines.{extend_tip-new, sum_work}
use mutinynet_indexer.Cache.Headers.{HeadersCache}
use mutinynet_indexer.Cache.Headers.Sync.{join_fork}
use mutinynet_indexer.Cache.Headers.Invariant.{IsLinked, IsValid}
use mutinynet_indexer.Cache.Headers.Path.{path-entry}
use mutinynet_indexer.Cache.Headers.MainWalk.{main_walk-missing}
use mutinynet_indexer.Cache.Headers.Reorg.{IsOnMain}
use mutinynet_indexer.Cache.Headers.Shelve.{IsTidy}
use mutinynet_indexer.Cache.Headers.Outcomes.{stored_work}
use mutinynet_indexer.Cache.Headers.Fork.{
  fork_base, join_fork-heavier, join_fork-lighter, join_fork-off_main,
}
use mutinynet_indexer.Db.Header.{HeaderRecord}

module _ {H : Type 0} ⦃b : BlockHeader H⦄ where
  at_height :
      (s : HeadersCache H) (q : HeaderRecord H)
      → IsValid s
      → lookup (block_hash q.header) s.headers ≡ some q
      → (k : ℕ) → get_elem? s.main_chain k ≡ some (block_hash q.header)
      → get_elem? s.main_chain q.height ≡ some (block_hash q.header)
  at_height s q v found k e =
      let (r, found', height, flag) = path-entry s.headers zero_hash 0 s.main_chain k v.path e in
      let same : r ≡ q = cc in
      let index : k ≡ q.height = omega (arith, ap (λ (o : HeaderRecord H). o.height) same) in
      rw (← index) e

  -- A stored record is on the main chain at its height, or at no index.
  main_or_off :
      (s : HeadersCache H) (q : HeaderRecord H)
      → IsValid s
      → lookup (block_hash q.header) s.headers ≡ some q
      → (get_elem? s.main_chain q.height ≡ some (block_hash q.header))
        ⊎ ((k : ℕ) → get_elem? s.main_chain k ≢ some (block_hash q.header))
  main_or_off s q v found = elim (Option-cases (get_elem? s.main_chain q.height)) [
    | inl gone ↦ inr (λ k e. let at = at_height s q v found k e in cc)
    | inr (x, at) ↦ elim (ℕ_discrete x (block_hash q.header)) [
      | yes eq ↦ inl (at ∙ ap some eq)
      | no ne ↦ inr (λ k e. let at' = at_height s q v found k e in ne (cc))
    ]
  ]

  -- A fork on a header that is marked and not on the main chain is never taken in.
  pub join_fork-stale :
      (s : HeadersCache H) (q : HeaderRecord H) (first : H) (rest : List H)
      → IsValid s
      → lookup (block_hash q.header) s.headers ≡ some q
      → q.in_longest ≡ true
      → prev_blockhash first ≡ block_hash q.header
      → ((k : ℕ) → get_elem? s.main_chain k ≢ some (block_hash q.header))
      → join_fork first rest s ≡ err (missing_header zero_hash)
  unfolding join_fork Chain.root_hash Chain.from_headers
  join_fork-stale s q first rest v found flag parent off =
      rw
        (
          parent,
          fork_base s q found flag,
          extend_tip-new q.header first rest (sym parent),
          main_walk-missing s (block_hash q.header) v off,
        )
        refl

  -- Both ways in which a fork on the main chain ends keep the cache well formed.
  join_fork-on_main :
      (s : HeadersCache H) (k : ℕ) (p : HeaderRecord H) (first : H) (rest : List H)
      {s' : HeadersCache H}
      → IsValid s
      → IsOnMain s k p
      → k < s.height
      → IsLinked (block_hash p.header) (first ∷ rest)
      → IsTidy s.headers (first ∷ rest)
      → join_fork first rest s ≡ ok s'
      → IsValid s'
  join_fork-on_main s k p first rest {s'} v on lt linked tidy e =
      elim (dec_lt (stored_work s.headers (drop (suc k) s.main_chain))
        (work p.header + sum_work (first ∷ rest))) [
          | yes heavy ↦
              (let (q, ran, valid, chain, tip, height) =
                  join_fork-heavier s k p first rest v on lt linked heavy in
                let same : q ≡ s' = cc in subst IsValid same valid)
          | no light ↦
              (let (q, ran, valid, stored, kept, chain, tip, height) =
                  join_fork-lighter s k p first rest v on lt linked tidy (omega arith) in
                let same : q ≡ s' = cc in subst IsValid same valid)
        ]

  pub join_fork-IsValid :
      (s : HeadersCache H) (q : HeaderRecord H) (first : H) (rest : List H) {s' : HeadersCache H}
      → IsValid s
      → lookup (prev_blockhash first) s.headers ≡ some q
      → s.best_tip ≢ prev_blockhash first
      → IsLinked (prev_blockhash first) (first ∷ rest)
      → IsTidy s.headers (first ∷ rest)
      → join_fork first rest s ≡ ok s'
      → IsValid s'
  join_fork-IsValid s q first rest {s'} v found apart linked tidy e =
      let key : block_hash q.header ≡ prev_blockhash first =
        v.forest.keyed (prev_blockhash first) q found in
      let found' : lookup (block_hash q.header) s.headers ≡ some q = rw key found in
      elim (Bool-cases q.in_longest) [
        | inr off ↦ absurd (join_fork-off_main s first rest q v found off s' e)
        | inl flag ↦ elim (main_or_off s q v found') [
          | inr off ↦
              (let refused = join_fork-stale s q first rest v found' flag (sym key) off in cc)
          | inl at ↦
              (let index : q.height < length s.main_chain = get_elem?-lt s.main_chain q.height at in
                let lower : q.height ≢ s.height = λ same. apart (cc (v.tip, at, same, key)) in
                join_fork-on_main s q.height q first rest v
                  (record { stored = found'; at = at; height = refl; flagged = flag })
                  (omega (arith, v.size)) (rw key linked) tidy e)
        ]
      ]

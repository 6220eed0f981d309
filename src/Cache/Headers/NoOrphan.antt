-- ===== src/Cache/Headers/NoOrphan.antt =====
-- `update_longest_chain` where no orphan waits (vault-indexer/src/cache/headers.rs).
use mutinynet_indexer.Common.{
  ℕ, suc, ◌≡◌, refl, sym, ap, ◌∙◌, List, [], ◌∷◌, ◌==◌, inl, inr, if◌then◌else◌,
}
use mutinynet_indexer.Common.Dict.{values, contains, contains-some}
use mutinynet_indexer.Cache.Block.{BlockHeader, prev_blockhash}
use mutinynet_indexer.Cache.Error.{Result, ok, err, ◌>>=◌}
use mutinynet_indexer.Common.Outcome.{if-either}
use mutinynet_indexer.Cache.Headers.{HeadersCache}
use mutinynet_indexer.Cache.Headers.Keep.{IsStored, extend_main-Grows, join_fork-Grows}
use mutinynet_indexer.Cache.Headers.Sync.{
  extend_main, join_fork, stash, adopt, adoptable, remove_orphans, process_orphans,
  update_longest_chain,
}

module _ {H : Type 0} ⦃b : BlockHeader H⦄ where
  process_orphans-nothing :
      (update : List H → HeadersCache H → Result (HeadersCache H)) (s : HeadersCache H)
      → s.orphans ≡ []
      → process_orphans update s ≡ ok s
  unfolding process_orphans values adoptable adopt remove_orphans
  process_orphans-nothing update s e = rw (e, process_orphans) refl

  -- Nothing is left to do after a step that leaves no orphan.
  settled :
      (update : List H → HeadersCache H → Result (HeadersCache H)) (step : Result (HeadersCache H))
      → ((s : HeadersCache H) → step ≡ ok s → s.orphans ≡ [])
      → (step >>= process_orphans update) ≡ step
  settled update (err e) none = refl
  settled update (ok s) none = process_orphans-nothing update s (none s refl)

  extend_main-no_orphan :
      (hs : List H) (s s' : HeadersCache H)
      → s.orphans ≡ []
      → extend_main hs s ≡ ok s'
      → s'.orphans ≡ []
  extend_main-no_orphan hs s s' none ran = (extend_main-Grows hs s ran).no_orphan none

  join_fork-no_orphan :
      (first : H) (rest : List H) (s s' : HeadersCache H)
      → s.orphans ≡ []
      → join_fork first rest s ≡ ok s'
      → s'.orphans ≡ []
  join_fork-no_orphan first rest s s' none ran = (join_fork-Grows first rest s ran).no_orphan none

  -- Where no orphan waits, `update_longest_chain` does not call itself again, so a fuel of one is
  -- enough: headers on top of the best tip extend the main chain, headers on another stored header
  -- are a fork, and all others are put aside.
  pub update_longest_chain-no_orphan :
      (fuel : ℕ) (first : H) (rest : List H) (s : HeadersCache H)
      → s.orphans ≡ []
      → update_longest_chain (suc fuel) (first ∷ rest) s ≡ (
          if s.best_tip == prev_blockhash first
          then extend_main (first ∷ rest) s
          else if contains (prev_blockhash first) s.headers
          then join_fork first rest s
          else ok (stash (first ∷ rest) s))
  unfolding update_longest_chain
  update_longest_chain-no_orphan fuel first rest s none =
      rw
        (
          settled (update_longest_chain fuel) (extend_main (first ∷ rest) s)
              (λ s'. extend_main-no_orphan (first ∷ rest) s s' none),
          settled (update_longest_chain fuel) (join_fork first rest s)
              (λ s'. join_fork-no_orphan first rest s s' none),
        )
        refl

  -- No orphan is left either by headers that continue a stored header.
  pub no_orphan-after :
      (fuel : ℕ) (first : H) (rest : List H) (s s' : HeadersCache H)
      → s.orphans ≡ []
      → IsStored (prev_blockhash first) s
      → update_longest_chain (suc fuel) (first ∷ rest) s ≡ ok s'
      → s'.orphans ≡ []
  no_orphan-after fuel first rest s s' none known e =
      let kept : (if s.best_tip == prev_blockhash first
            then extend_main (first ∷ rest) s
            else join_fork first rest s)
          ≡ ok s' =
        sym (
          ap
            (λ t.
              if s.best_tip == prev_blockhash first
              then extend_main (first ∷ rest) s
              else if t
              then join_fork first rest s
              else ok (stash (first ∷ rest) s))
            (contains-some (prev_blockhash first) s.headers known.1))
        ∙ sym (update_longest_chain-no_orphan fuel first rest s none)
        ∙ e in
      elim (if-either (s.best_tip == prev_blockhash first) (extend_main (first ∷ rest) s)
        (join_fork first rest s) kept) [
          | inl ran ↦ extend_main-no_orphan (first ∷ rest) s s' none ran
          | inr ran ↦ join_fork-no_orphan first rest s s' none ran
        ]

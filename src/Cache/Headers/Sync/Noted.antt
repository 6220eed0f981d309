-- ===== src/Cache/Headers/Sync/Noted.antt =====
-- Whatever `update_longest_chain` changes is noted (vault-indexer/src/cache/headers.rs).
use mathlib.Core.Path.{subst}
use mutinynet_indexer.Common.{ℕ, zero, suc, ◌≡◌, ◌∙◌, sym, List, [], ◌∷◌, inl, inr, Option-cases}
use mutinynet_indexer.Common.Dict.{Dict, lookup, insert, erase, values}
use mutinynet_indexer.Cache.Block.{BlockHeader, block_hash, prev_blockhash}
use mutinynet_indexer.Cache.Error.{Result, ok, ok-injective, >>=-eq-ok}
use mutinynet_indexer.Cache.Headers.{HeadersCache}
use mutinynet_indexer.Cache.Headers.Keep.{extend_main-Grows, join_fork-Grows}
use mutinynet_indexer.Cache.Headers.Notes.{Notes, Notes-refl, Notes-trans}
use mutinynet_indexer.Cache.Headers.Orphans.{update-extend, update-join, update-stash, no-fuel}
use mutinynet_indexer.Cache.Headers.Sync.{
  extend_main, join_fork, stash, adopt, adoptable, remove_orphans, process_orphans,
  update_longest_chain,
}
use native.Mathlib.Decide.{ℕ_discrete}

module _ {H : Type 0} ⦃b : BlockHeader H⦄ where
  orphans-Notes : (s : HeadersCache H) (o : Dict H) → Notes s (record s { orphans = o })
  orphans-Notes s o =
      let n = Notes-refl s in
      record { kept = n.kept; noted = n.noted; still = n.still; stored = n.stored }

  stash-Notes : (hs : List H) (s : HeadersCache H) → Notes s (stash hs s)
  unfolding stash
  stash-Notes [] s = Notes-refl s
  stash-Notes (h ∷ hs) s =
      Notes-trans (orphans-Notes s (insert (block_hash h) h s.orphans)) (stash-Notes hs _)

  remove_orphans-Notes : (os : List H) (s : HeadersCache H) → Notes s (remove_orphans os s)
  unfolding remove_orphans
  remove_orphans-Notes [] s = Notes-refl s
  remove_orphans-Notes (o ∷ os) s =
      Notes-trans (orphans-Notes s (erase (block_hash o) s.orphans)) (remove_orphans-Notes os _)

  -- A call that notes what it changes.
  abbrev IsNoting : (List H → HeadersCache H → Result (HeadersCache H)) → Type 0
  IsNoting update = (o : H) (s s' : HeadersCache H) → update (o ∷ []) s ≡ ok s' → Notes s s'

  adopt-Notes :
      (update : List H → HeadersCache H → Result (HeadersCache H)) (os : List H)
      (s s' : HeadersCache H)
      → IsNoting update
      → adopt update os s ≡ ok s'
      → Notes s s'
  unfolding adopt
  adopt-Notes update [] s s' noting e = subst (Notes s) (ok-injective e) (Notes-refl s)
  adopt-Notes update (o ∷ os) s s' noting e =
      let (q, ran, rest) = >>=-eq-ok (update (o ∷ []) s) (adopt update os) e in
      Notes-trans (noting o s q ran) (adopt-Notes update os q s' noting rest)

  process_orphans-Notes :
      (update : List H → HeadersCache H → Result (HeadersCache H)) (s s' : HeadersCache H)
      → IsNoting update
      → process_orphans update s ≡ ok s'
      → Notes s s'
  unfolding process_orphans
  process_orphans-Notes update s s' noting e =
      let adopted : List H = adoptable s.headers (values s.orphans) in
      let (q, ran, rest) =
        >>=-eq-ok (adopt update adopted s) (λ q. ok (remove_orphans adopted q)) e in
      subst (Notes s) (ok-injective rest)
        (Notes-trans (adopt-Notes update adopted s q noting ran) (remove_orphans-Notes adopted q))

  update_first-Notes :
      (fuel : ℕ) (first : H) (rest : List H) (s s' : HeadersCache H)
      → update_longest_chain fuel (first ∷ rest) s ≡ ok s'
      → Notes s s'
  update_first-Notes zero first rest s s' e = absurd (no-fuel (first ∷ rest) s e)
  update_first-Notes (suc fuel) first rest s s' e =
      let noting : IsNoting (update_longest_chain fuel) =
        λ o q q' ran. update_first-Notes fuel o [] q q' ran in
      elim (ℕ_discrete s.best_tip (prev_blockhash first)) [
        | yes tip ↦
            (let (q, ran, h) =
                >>=-eq-ok (extend_main (first ∷ rest) s)
                  (process_orphans (update_longest_chain fuel))
                  (sym (update-extend fuel first rest s tip) ∙ e) in
              Notes-trans (extend_main-Grows (first ∷ rest) s ran).notes
                (process_orphans-Notes (update_longest_chain fuel) q s' noting h))
        | no ne ↦ elim (Option-cases (lookup (prev_blockhash first) s.headers)) [
          | inl gone ↦
              subst (Notes s) (ok-injective (sym (update-stash fuel first rest s ne gone) ∙ e))
                (stash-Notes (first ∷ rest) s)
          | inr (p, found) ↦
              (let (q, ran, h) =
                  >>=-eq-ok (join_fork first rest s) (process_orphans (update_longest_chain fuel))
                    (sym (update-join fuel first rest s ne found) ∙ e) in
                Notes-trans (join_fork-Grows first rest s ran).notes
                  (process_orphans-Notes (update_longest_chain fuel) q s' noting h))
        ]
      ]

  pub update_longest_chain-Notes :
      (fuel : ℕ) (hs : List H) (s s' : HeadersCache H)
      → update_longest_chain fuel hs s ≡ ok s'
      → Notes s s'
  unfolding update_longest_chain
  update_longest_chain-Notes zero [] s s' e = cc
  update_longest_chain-Notes (suc fuel) [] s s' e = subst (Notes s) (ok-injective e) (Notes-refl s)
  update_longest_chain-Notes fuel (first ∷ rest) s s' e = update_first-Notes fuel first rest s s' e

-- ===== src/Cache/Headers/Activate.antt =====
-- `store_active` (vault-indexer/src/cache/headers.rs): the headers of a linked chain become the
-- main chain above its root.
use mathlib.Core.List.{append_assoc, append-nil}
use native.Mathlib.Decide.{ℕ_discrete}
use mutinynet_indexer.Common.{
  ℕ, suc, ◌+◌, ◌≡◌, refl, ap, ◌∙◌, sym, true, Option-cases, inl, inr, some, List, [], ◌∷◌, ◌++◌,
  map, arith, length, length-append, last_or, last_or-append, set-append, lt→ltb,
}
use mutinynet_indexer.Common.Dict.{
  Dict, lookup, insert, erase, lookup-insert_self, lookup-insert_ne,
}
use mutinynet_indexer.Cache.Block.{BlockHeader, block_hash, prev_blockhash, zero_hash}
use mutinynet_indexer.Cache.Error.{ok}
use mutinynet_indexer.Cache.Headers.{HeadersCache, write, activate_one, activate}
use mutinynet_indexer.Cache.Headers.Invariant.{IsForest, IsPath, IsLinked}
use mutinynet_indexer.Cache.Headers.Forest.{IsForest-insert, height_of_parent}
use mutinynet_indexer.Cache.Headers.Path.{IsPath-frame, IsPath-append}
use mutinynet_indexer.Db.Header.{HeaderRecord}

-- A write at the end of a prefix goes through.
write-append {ℓ} :
    {A : Type ℓ} (xs : List A) (y : A) (ys : List A) (n : ℕ) (v : A)
    → length xs ≡ n
    → write n v (xs ++ (y ∷ ys)) ≡ ok (xs ++ (v ∷ ys))
unfolding write
write-append xs y ys n v h =
    rw (lt→ltb n (length (xs ++ (y ∷ ys))) (omega (arith, length-append xs (y ∷ ys))))
      (rw (set-append xs y ys n v h) refl)

module _ {H : Type 0} ⦃b : BlockHeader H⦄ where
  -- In the middle of the loop: the main chain is done up to the last record.
  pub record IsActivating (s : HeadersCache H) (p : HeaderRecord H) (done rest : List ℕ)
      : Type 0 where
    pub forest : IsForest s.headers
    pub stored : lookup (block_hash p.header) s.headers ≡ some p
    pub path : IsPath s.headers zero_hash 0 done
    pub last : last_or zero_hash done ≡ block_hash p.header
    pub size : length done ≡ suc p.height
    pub chain : s.main_chain ≡ done ++ rest

  -- A flagged record in place of one that differs at most in the flag keeps a path.
  IsPath-insert :
      (d : Dict (HeaderRecord H)) (k : ℕ) (r : HeaderRecord H) (xs : List ℕ)
      → ((old : HeaderRecord H) → lookup k d ≡ some old → r ≡ record old { in_longest = true })
      → IsPath d zero_hash 0 xs
      → IsPath (insert k r d) zero_hash 0 xs
  IsPath-insert d k r xs same w =
      IsPath-frame d (insert k r d) zero_hash 0 xs
        (λ h q found lt flag. elim (ℕ_discrete k h) [
          | yes e ↦ rw (← e) (lookup-insert_self k r d ∙ ground (arith, same q))
          | no ne ↦ lookup-insert_ne h k r d ne ∙ found
        ])
        w

  -- The cache after a round that has stored the record `r` under its hash `k`.
  advance-IsActivating :
      (s s' : HeadersCache H) (p r : HeaderRecord H) (k : ℕ) (done : List ℕ) (z : ℕ) (rest : List ℕ)
      → IsActivating s p done (z ∷ rest)
      → block_hash r.header ≡ k
      → ((old : HeaderRecord H)
          → lookup k s.headers ≡ some old
          → r ≡ record old { in_longest = true })
      → prev_blockhash r.header ≡ block_hash p.header
      → r.height ≡ suc p.height
      → r.in_longest ≡ true
      → s'.headers ≡ insert k r s.headers
      → s'.main_chain ≡ done ++ (k ∷ rest)
      → IsActivating s' r (done ++ (k ∷ [])) rest
  advance-IsActivating s s' p r k done z rest v key same parent at flag eh em =
      let found : lookup k s'.headers ≡ some r = rw eh (lookup-insert_self k r s.headers) in
      record {
        forest = rw eh (
            IsForest-insert k r s.headers key (inr (p, rw parent v.stored, at))
              (λ old f. ap (λ (q : HeaderRecord H). q.height) (same old f)) v.forest);
        stored = rw key found;
        path =
            IsPath-append s'.headers zero_hash 0 done (k ∷ []) refl
              (rw eh (IsPath-insert s.headers k r done same v.path))
              ((r, found, omega (arith, v.size), parent ∙ sym v.last, flag), tt);
        last = last_or-append zero_hash done (k ∷ []) ∙ sym key;
        size = omega (arith, length-append done (k ∷ []), v.size);
        chain = em ∙ sym (append_assoc done (k ∷ []) rest);
      }

  -- One round of the loop, for a header that follows the last record.
  activate_one-IsActivating :
      (h : H) (p : HeaderRecord H) (s : HeadersCache H) (done : List ℕ) (z : ℕ) (rest : List ℕ)
      → IsActivating s p done (z ∷ rest)
      → prev_blockhash h ≡ block_hash p.header
      → (r : HeaderRecord H) × (s' : HeadersCache H) × (activate_one h p s ≡ ok (r, s'))
        × (r.header ≡ h)
        × IsActivating s' r (done ++ (block_hash h ∷ [])) rest
  unfolding activate_one
  activate_one-IsActivating h p s done z rest v parent =
      elim (Option-cases (lookup (block_hash h) s.headers)) [
        | inl new ↦
            (let k : ℕ = block_hash h in
              let r : HeaderRecord H = record {
                header = h;
                height = p.height + 1;
                in_longest = true;
              } in
              let s' : HeadersCache H = record s {
                headers = insert k r s.headers;
                main_chain = done ++ (k ∷ rest);
                orphans = erase k s.orphans;
                dirty = s.dirty ++ (k ∷ []);
              } in
              let wrote : write r.height k s.main_chain ≡ ok (done ++ (k ∷ rest)) =
                rw v.chain (write-append done z rest r.height k (omega (arith, v.size))) in
              (
                r,
                s',
                rw (new, activate_one) (rw wrote refl),
                refl,
                advance-IsActivating s s' p r k done z rest v refl (λ old found. cc) parent
                    (omega arith) refl refl refl,
              ))
        | inr (old, found) ↦
            (let k : ℕ = block_hash h in
              let key : block_hash old.header ≡ k = v.forest.keyed k old found in
              let same : old.header ≡ h = b.hash_injective old.header h key in
              let r : HeaderRecord H = record old { in_longest = true } in
              let s' : HeadersCache H = record s {
                headers = insert k r s.headers;
                main_chain = done ++ (k ∷ rest);
                dirty = s.dirty ++ (k ∷ []);
              } in
              let above : prev_blockhash old.header ≡ block_hash p.header = rw same parent in
              let at : old.height ≡ suc p.height =
                height_of_parent s.headers old p p.header (v.forest.parented k old found) above
                  v.stored in
              let wrote : write old.height k s.main_chain ≡ ok (done ++ (k ∷ rest)) =
                rw v.chain (write-append done z rest old.height k (omega (arith, v.size, at))) in
              (
                r,
                s',
                rw (found, activate_one) (rw wrote refl),
                same,
                advance-IsActivating s s' p r k done z rest v key (λ q f. cc) above at refl refl
                    refl,
              ))
      ]

  -- The whole loop: linked headers all go onto the main chain.
  pub activate-IsActivating :
      (hs : List H) (p : HeaderRecord H) (s : HeadersCache H) (done rest : List ℕ)
      → IsActivating s p done rest
      → length rest ≡ length hs
      → IsLinked (block_hash p.header) hs
      → (r : HeaderRecord H) × (s' : HeadersCache H) × (activate hs p s ≡ ok s')
        × IsActivating s' r (done ++ map block_hash hs) []
  unfolding activate
  activate-IsActivating [] p s done [] v size linked = (p, s, refl, rw append-nil v)
  activate-IsActivating [] p s done (z ∷ rest) v size linked = absurd (omega arith)
  activate-IsActivating (h ∷ hs) p s done [] v size linked = absurd (omega arith)
  activate-IsActivating (h ∷ hs) p s done (z ∷ rest) v size linked =
      let (r, s', stepped, same, v') = activate_one-IsActivating h p s done z rest v linked.0 in
      let (q, s'', ran, v'') =
        activate-IsActivating hs r s' (done ++ (block_hash h ∷ [])) rest v' (omega arith)
          (rw same linked.1) in
      (
        q,
        s'',
        rw stepped ran,
        rw (append_assoc done (block_hash h ∷ []) (map block_hash hs)) at v'',
      )

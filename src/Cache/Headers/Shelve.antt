-- ===== src/Cache/Headers/Shelve.antt =====
-- `store_inactive` (vault-indexer/src/cache/headers.rs): headers that are stored beside the main
-- chain.
use mathlib.Core.Path.{subst}
use mutinynet_indexer.Common.{
  ℕ, ◌+◌, ◌≡◌, ◌≢◌, refl, sym, ap, ◌∙◌, false, none, some, inl, inr, ◌⊎◌, length, Option-cases,
  List, [], ◌∷◌, ◌++◌, arith,
}
use mutinynet_indexer.Common.Dict.{
  Dict, lookup, insert, erase, lookup-insert_ne, lookup-insert_self,
}
use mutinynet_indexer.Cache.Block.{BlockHeader, block_hash, prev_blockhash, zero_hash}
use mutinynet_indexer.Cache.Error.{ok}
use mutinynet_indexer.Cache.Chain
use mutinynet_indexer.Cache.Chain.{HeaderChain}
use mutinynet_indexer.Cache.Headers.{HeadersCache, shelve_one, shelve, store_inactive}
use mutinynet_indexer.Cache.Headers.Invariant.{IsForest, IsLinked, IsValid}
use mutinynet_indexer.Cache.Headers.Forest.{IsForest-insert}
use mutinynet_indexer.Cache.Headers.Path.{IsPath-frame}
use mutinynet_indexer.Db.Header.{HeaderRecord}

module _ {H : Type 0} ⦃b : BlockHeader H⦄ where
  -- Headers that are not stored, and differ from one another.
  abbrev pub IsApart : ℕ → List H → Type 0
  IsApart x [] = Unit {0}
  IsApart x (h ∷ hs) = (x ≢ block_hash h) × IsApart x hs

  abbrev pub IsNew : Dict (HeaderRecord H) → List H → Type 0
  IsNew d [] = Unit {0}
  IsNew d (h ∷ hs) = (lookup (block_hash h) d ≡ none) × IsApart (block_hash h) hs × IsNew d hs

  IsNew-insert :
      (d : Dict (HeaderRecord H)) (x : ℕ) (r : HeaderRecord H) (hs : List H)
      → IsApart x hs
      → IsNew d hs
      → IsNew (insert x r d) hs
  IsNew-insert d x r [] a n = tt
  IsNew-insert d x r (h ∷ hs) a n =
      (lookup-insert_ne (block_hash h) x r d a.0 ∙ n.0, n.1, IsNew-insert d x r hs a.1 n.2)

  -- More is stored, and all else but the orphans and the list of what to write is as before.
  pub record Shelved (s s' : HeadersCache H) : Type 0 where
    pub forest : IsForest s'.headers
    pub kept :
        (h : ℕ) (r : HeaderRecord H) → lookup h s.headers ≡ some r → lookup h s'.headers ≡ some r
    pub main_chain : s'.main_chain ≡ s.main_chain
    pub best_tip : s'.best_tip ≡ s.best_tip
    pub height : s'.height ≡ s.height

  -- One new header on top of the record `p`.
  shelve_one-Shelved :
      (h : H) (p : HeaderRecord H) (s : HeadersCache H)
      → IsForest s.headers
      → lookup (block_hash p.header) s.headers ≡ some p
      → prev_blockhash h ≡ block_hash p.header
      → lookup (block_hash h) s.headers ≡ none
      → let r : HeaderRecord H = record { header = h; height = p.height + 1; in_longest = false } in
        let s' : HeadersCache H = record s {
          headers = insert (block_hash h) r s.headers;
          orphans = erase (block_hash h) s.orphans;
          dirty = s.dirty ++ (block_hash h ∷ []);
        } in
        (shelve_one h p s ≡ (r, s')) × Shelved s s'
  unfolding shelve_one
  shelve_one-Shelved h p s f stored parent new =
      let r : HeaderRecord H = record { header = h; height = p.height + 1; in_longest = false } in
      (
        rw (new, shelve_one) refl,
        record {
          forest =
              IsForest-insert (block_hash h) r s.headers refl
                (inr (p, rw parent stored, omega arith)) (λ old e. cc) f;
          kept = λ x q e. lookup-insert_ne x (block_hash h) r s.headers (λ eq. cc) ∙ e;
          main_chain = refl;
          best_tip = refl;
          height = refl;
        },
      )

  Shelved-refl : (s : HeadersCache H) → IsForest s.headers → Shelved s s
  Shelved-refl s f = record {
    forest = f;
    kept = λ h r e. e;
    main_chain = refl;
    best_tip = refl;
    height = refl;
  }

  Shelved-trans : (s s' s'' : HeadersCache H) → Shelved s s' → Shelved s' s'' → Shelved s s''
  Shelved-trans s s' s'' c c' = record {
    forest = c'.forest;
    kept = λ h r e. c'.kept h r (c.kept h r e);
    main_chain = c'.main_chain ∙ c.main_chain;
    best_tip = c'.best_tip ∙ c.best_tip;
    height = c'.height ∙ c.height;
  }

  pub shelve-Shelved :
      (hs : List H) (p : HeaderRecord H) (s : HeadersCache H)
      → IsForest s.headers
      → lookup (block_hash p.header) s.headers ≡ some p
      → IsLinked (block_hash p.header) hs
      → IsNew s.headers hs
      → Shelved s (shelve hs p s)
  unfolding shelve
  shelve-Shelved [] p s f stored linked new = Shelved-refl s f
  shelve-Shelved (h ∷ hs) p s f stored linked new =
      let (stepped, c) = shelve_one-Shelved h p s f stored linked.0 new.0 in
      let r : HeaderRecord H = record { header = h; height = p.height + 1; in_longest = false } in
      rw stepped (
        Shelved-trans s _ _ c (
          shelve-Shelved hs r _ c.forest (lookup-insert_self (block_hash h) r s.headers) linked.1
            (IsNew-insert s.headers (block_hash h) r hs new.1 new.2)))

  -- Nothing is stored twice: all headers are new, or there is one.
  abbrev pub IsTidy : Dict (HeaderRecord H) → List H → Type 0
  IsTidy d hs = IsNew d hs ⊎ (length hs ≡ 1)

  shelve_one-known :
      (h : H) (p : HeaderRecord H) (s : HeadersCache H) {old : HeaderRecord H}
      → lookup (block_hash h) s.headers ≡ some old
      → shelve_one h p s ≡ (p, s)
  unfolding shelve_one
  shelve_one-known h p s found = rw (found, shelve_one) refl

  -- One header, known or not.
  shelve_one-single :
      (h : H) (p : HeaderRecord H) (s : HeadersCache H)
      → IsForest s.headers
      → lookup (block_hash p.header) s.headers ≡ some p
      → prev_blockhash h ≡ block_hash p.header
      → Shelved s (shelve_one h p s).1
  shelve_one-single h p s f stored parent = elim (Option-cases (lookup (block_hash h) s.headers)) [
    | inl new ↦ (let (stepped, c) = shelve_one-Shelved h p s f stored parent new in rw stepped c)
    | inr (old, found) ↦ rw (shelve_one-known h p s found) (Shelved-refl s f)
  ]

  shelve-tidy :
      (hs : List H) (p : HeaderRecord H) (s : HeadersCache H)
      → IsForest s.headers
      → lookup (block_hash p.header) s.headers ≡ some p
      → IsLinked (block_hash p.header) hs
      → IsTidy s.headers hs
      → Shelved s (shelve hs p s)
  shelve-tidy [] p s f stored linked t = unfold shelve in Shelved-refl s f
  shelve-tidy (h ∷ []) p s f stored linked t =
      unfold shelve in shelve_one-single h p s f stored linked.0
  shelve-tidy (h ∷ g ∷ hs) p s f stored linked (inl new) =
      shelve-Shelved (h ∷ g ∷ hs) p s f stored linked new
  shelve-tidy (h ∷ g ∷ hs) p s f stored linked (inr one) = absurd (omega arith)

  -- Each header of the list has a record.
  abbrev pub AreStored : Dict (HeaderRecord H) → List H → Type 0
  AreStored d [] = Unit {0}
  AreStored d (h ∷ hs) =
      ((r : HeaderRecord H) × (lookup (block_hash h) d ≡ some r) × (r.header ≡ h)) × AreStored d hs

  -- After one new header.
  abbrev shelved_one : H → HeaderRecord H → HeadersCache H → HeadersCache H
  shelved_one h p s = record s {
    headers =
        insert (block_hash h) (record { header = h; height = p.height + 1; in_longest = false })
          s.headers;
    orphans = erase (block_hash h) s.orphans;
    dirty = s.dirty ++ (block_hash h ∷ []);
  }

  shelve-AreStored :
      (hs : List H) (p : HeaderRecord H) (s : HeadersCache H)
      → IsForest s.headers
      → lookup (block_hash p.header) s.headers ≡ some p
      → IsLinked (block_hash p.header) hs
      → IsNew s.headers hs
      → AreStored (shelve hs p s).headers hs
  unfolding shelve
  shelve-AreStored [] p s f stored linked new = tt
  shelve-AreStored (h ∷ hs) p s f stored linked new =
      let (stepped, c) = shelve_one-Shelved h p s f stored linked.0 new.0 in
      let r : HeaderRecord H = record { header = h; height = p.height + 1; in_longest = false } in
      let here = lookup-insert_self (block_hash h) r s.headers in
      let others = IsNew-insert s.headers (block_hash h) r hs new.1 new.2 in
      let step : shelve (h ∷ hs) p s ≡ shelve hs r (shelved_one h p s) =
        ap (λ t. shelve hs t.0 t.1) stepped in
      subst (λ (t : HeadersCache H). AreStored t.headers (h ∷ hs)) (sym step)
        (
          (
            r,
            (shelve-Shelved hs r _ c.forest here linked.1 others).kept (block_hash h) r here,
            refl,
          ),
          shelve-AreStored hs r (shelved_one h p s) c.forest here linked.1 others,
        )

  shelve-known :
      (h : H) (p : HeaderRecord H) (s : HeadersCache H) {old : HeaderRecord H}
      → lookup (block_hash h) s.headers ≡ some old
      → shelve (h ∷ []) p s ≡ s
  unfolding shelve
  shelve-known h p s found = ap (λ t. t.1) (shelve_one-known h p s found)

  shelve-AreStored_tidy :
      (hs : List H) (p : HeaderRecord H) (s : HeadersCache H)
      → IsForest s.headers
      → lookup (block_hash p.header) s.headers ≡ some p
      → IsLinked (block_hash p.header) hs
      → IsTidy s.headers hs
      → AreStored (shelve hs p s).headers hs
  shelve-AreStored_tidy [] p s f stored linked t = tt
  shelve-AreStored_tidy (h ∷ []) p s f stored linked t =
      elim (Option-cases (lookup (block_hash h) s.headers)) [
        | inl new ↦ shelve-AreStored (h ∷ []) p s f stored linked (new, tt, tt)
        | inr (old, found) ↦
            subst (λ (t : HeadersCache H). AreStored t.headers (h ∷ []))
              (sym (shelve-known h p s found))
              ((old, found, b.hash_injective old.header h (f.keyed (block_hash h) old found)), tt)
      ]
  shelve-AreStored_tidy (h ∷ g ∷ hs) p s f stored linked (inl new) =
      shelve-AreStored (h ∷ g ∷ hs) p s f stored linked new
  shelve-AreStored_tidy (h ∷ g ∷ hs) p s f stored linked (inr one) = absurd (omega arith)

  -- A fork on a stored header is stored beside the main chain.
  pub store_inactive-Shelved :
      (hs : List H) (p : HeaderRecord H) (s : HeadersCache H)
      → IsForest s.headers
      → lookup (block_hash p.header) s.headers ≡ some p
      → IsLinked (block_hash p.header) hs
      → IsTidy s.headers hs
      → (s' : HeadersCache H) × (store_inactive (Chain.from_headers p.header hs) s ≡ ok s')
        × Shelved s s'
        × AreStored s'.headers hs
  unfolding store_inactive shelve Chain.root_hash Chain.from_headers Chain.headers
  store_inactive-Shelved hs p s f stored linked t = (
    shelve hs p s,
    rw (stored, shelve_one-known p.header p s stored) refl,
    shelve-tidy hs p s f stored linked t,
    shelve-AreStored_tidy hs p s f stored linked t,
  )

  -- A cache stays well formed when more is stored beside the main chain.
  pub Shelved-IsValid : (s s' : HeadersCache H) → IsValid s → Shelved s s' → IsValid s'
  Shelved-IsValid s s' v c = record {
    forest = c.forest;
    path = rw c.main_chain (
        IsPath-frame s.headers s'.headers zero_hash 0 s.main_chain (λ h r e low flag. c.kept h r e)
          v.path);
    size = rw (c.main_chain, c.height) v.size;
    tip = rw (c.main_chain, c.height, c.best_tip) v.tip;
  }

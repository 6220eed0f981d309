-- ===== src/Cache/Chain/Refines.antt =====
-- A `HeaderChain` stands for the list of its headers: what each operation does to that list.
use mathlib.Core.List.{foldl, reverse-append, append_assoc, append-nil}
use mutinynet_indexer.Common.{
  ℕ, ◌+◌, ◌≡◌, ◌≢◌, refl, ap, ◌∙◌, none, some, List, [], ◌∷◌, ◌++◌, reverse, arith, length,
  length-append, last_or, ==_iff, ◌==◌, false,
}
use mutinynet_indexer.Cache.Block.{BlockHeader, block_hash, prev_blockhash, work}
use mutinynet_indexer.Cache.Error.{ok, err, chain_mismatch_tip}
use mutinynet_indexer.Cache.Chain
use mutinynet_indexer.Cache.Chain.{
  HeaderChain, new, from_headers, len, headers, tip_hash, extend_tip, push_root, add_work,
  total_work, last,
}

length-reverse {ℓ} : {A : Type ℓ} (xs : List A) → length (reverse xs) ≡ length xs
length-reverse [] = refl
length-reverse (x ∷ xs) =
    ap length (reverse-append (x ∷ []) xs)
    ∙ omega (arith, length-append (reverse xs) (x ∷ []), length-reverse xs)

module _ {H : Type 0} where
  -- `len` counts the headers.
  pub len-eq-length : (c : HeaderChain H) → len c ≡ length (headers c)
  unfolding len headers
  len-eq-length c =
      omega (arith, length-append (reverse c.trunk_rev) c.trunk_for, length-reverse c.trunk_rev)

  pub headers-new : (h : H) → headers (new h) ≡ h ∷ []
  unfolding headers new
  headers-new h = refl

module _ {H : Type 0} ⦃b : BlockHeader H⦄ where
  -- The total work as a plain sum.
  abbrev pub sum_work : List H → ℕ
  sum_work [] = 0
  sum_work (h ∷ hs) = work h + sum_work hs

  foldl-add_work : (w : ℕ) (hs : List H) → foldl add_work w hs ≡ w + sum_work hs
  foldl-add_work w [] = omega arith
  foldl-add_work w (h ∷ hs) = omega (arith, foldl-add_work (w + work h) hs)

  sum_work-append : (xs ys : List H) → sum_work (xs ++ ys) ≡ sum_work xs + sum_work ys
  sum_work-append [] ys = omega arith
  sum_work-append (x ∷ xs) ys = omega (arith, sum_work-append xs ys)

  sum_work-reverse : (xs : List H) → sum_work (reverse xs) ≡ sum_work xs
  sum_work-reverse [] = refl
  sum_work-reverse (x ∷ xs) =
      ap sum_work (reverse-append (x ∷ []) xs)
      ∙ omega (arith, sum_work-append (reverse xs) (x ∷ []), sum_work-reverse xs)

  pub total_work-eq-sum : (c : HeaderChain H) → total_work c ≡ sum_work (headers c)
  unfolding total_work headers
  total_work-eq-sum c =
      foldl-add_work (foldl add_work (work c.root) c.trunk_rev) c.trunk_for
      ∙ omega (
        arith,
        foldl-add_work (work c.root) c.trunk_rev,
        sum_work-append (reverse c.trunk_rev) c.trunk_for,
        sum_work-reverse c.trunk_rev,
      )

  pub headers-push_root :
      (h : H) (c : HeaderChain H) {c' : HeaderChain H}
      → push_root h c ≡ ok c'
      → (headers c' ≡ h ∷ headers c) × (c'.root ≡ h)
  unfolding push_root headers
  headers-push_root h c e = ground (arith, reverse-append c.trunk_rev (c.root ∷ []))

  pub push_root-parent :
      (h : H) (c : HeaderChain H) {c' : HeaderChain H}
      → push_root h c ≡ ok c'
      → block_hash h ≡ prev_blockhash c.root
  unfolding push_root
  push_root-parent h c e = ground arith

  pub push_root-ok :
      (h : H) (c : HeaderChain H)
      → block_hash h ≡ prev_blockhash c.root
      → (c' : HeaderChain H) × (push_root h c ≡ ok c')
        × (headers c' ≡ h ∷ headers c)
        × (c'.root ≡ h)
  unfolding push_root
  push_root-ok h c e =
      let c' : HeaderChain H = record c { trunk_rev = c.trunk_rev ++ (c.root ∷ []); root = h } in
      let pushed : push_root h c ≡ ok c' =
        rw ((==_iff (block_hash h) (prev_blockhash c.root)).1 e) in
      (c', pushed, (headers-push_root h c pushed).0, refl)

  pub headers-extend_tip :
      (hs : List H) (c : HeaderChain H) {c' : HeaderChain H}
      → extend_tip hs c ≡ ok c'
      → (headers c' ≡ headers c ++ hs) × (c'.root ≡ c.root)
  unfolding extend_tip headers
  headers-extend_tip [] c e = ground (arith, append-nil (reverse c.trunk_rev ++ c.trunk_for))
  headers-extend_tip (h ∷ hs) c e =
      ground (arith, append_assoc (reverse c.trunk_rev) c.trunk_for (h ∷ hs))

  last-eq-last_or : (x : H) (xs : List H) → last (x ∷ xs) ≡ some (last_or x xs)
  last-eq-last_or x [] = refl
  last-eq-last_or x (y ∷ xs) = last-eq-last_or y xs

  -- Where nothing was pushed at the root, `tip_hash` is the hash of the last header.
  pub tip_hash-eq-last :
      (c : HeaderChain H) → c.trunk_rev ≡ [] → tip_hash c ≡ block_hash (last_or c.root c.trunk_for)
  unfolding tip_hash
  tip_hash-eq-last c e = go c.trunk_for
    where
      go :
          (hs : List H)
          → elim (last hs) [ none ↦ block_hash c.root | some h ↦ block_hash h ]
            ≡ block_hash (last_or c.root hs)
      go [] = refl
      go (x ∷ xs) = rw (last-eq-last_or x xs) refl

  pub extend_tip-new :
      (r h : H) (hs : List H)
      → block_hash r ≡ prev_blockhash h
      → extend_tip (h ∷ hs) (new r) ≡ ok (from_headers r (h ∷ hs))
  unfolding extend_tip new from_headers
  extend_tip-new r h hs e = ground arith

  -- A push at the root puts the header first and adds its work; it is done only for a parent.
  pub push_root_lem :
      (h : H) (c : HeaderChain H) {c' : HeaderChain H}
      → push_root h c ≡ ok c'
      → (block_hash h ≡ prev_blockhash c.root)
        × (headers c' ≡ h ∷ headers c)
        × (len c' ≡ len c + 1)
        × (total_work c' ≡ work h + total_work c)
  push_root_lem h c {c'} e =
      let grown : headers c' ≡ h ∷ headers c = (headers-push_root h c e).0 in
      (
        push_root-parent h c e,
        grown,
        omega (arith, len-eq-length c, len-eq-length c', ap length grown),
        omega (arith, total_work-eq-sum c, total_work-eq-sum c', ap sum_work grown),
      )

  pub extend_tip-parent :
      (h : H) (hs : List H) (c : HeaderChain H) {c' : HeaderChain H}
      → extend_tip (h ∷ hs) c ≡ ok c'
      → tip_hash c ≡ prev_blockhash h
  unfolding extend_tip
  extend_tip-parent h hs c e = ground arith

  sum_work_of_extend :
      (hs : List H) (c c' : HeaderChain H)
      → headers c' ≡ headers c ++ hs
      → total_work c' ≡ total_work c + sum_work hs
  sum_work_of_extend hs c c' e = omega (
    arith,
    total_work-eq-sum c,
    total_work-eq-sum c',
    ap sum_work e,
    sum_work-append (headers c) hs,
  )

  -- An extension at the tip appends the headers and adds their work; it is done only where the
  -- first of them names the hash that the chain takes for its tip.
  pub extend_tip_lem :
      (h : H) (hs : List H) (c : HeaderChain H) {c' : HeaderChain H}
      → extend_tip (h ∷ hs) c ≡ ok c'
      → (tip_hash c ≡ prev_blockhash h)
        × (headers c' ≡ headers c ++ (h ∷ hs))
        × (len c' ≡ len c + length (h ∷ hs))
        × (total_work c' ≡ total_work c + sum_work (h ∷ hs))
  extend_tip_lem h hs c {c'} e =
      let grown : headers c' ≡ headers c ++ (h ∷ hs) = (headers-extend_tip (h ∷ hs) c e).0 in
      (
        extend_tip-parent h hs c e,
        grown,
        omega (
          arith,
          len-eq-length c,
          len-eq-length c',
          ap length grown,
          length-append (headers c) (h ∷ hs),
        ),
        sum_work_of_extend (h ∷ hs) c c' grown,
      )

  -- A chain that was the one header `t` and has grown at its root only, by any number of headers.
  pub data IsGrown (t : H) : HeaderChain H → Type 0 where
    alone : IsGrown t (new t)
    pushed : {c c' : HeaderChain H} (h : H) → IsGrown t c → push_root h c ≡ ok c' → IsGrown t c'

  push_root-trunk_for :
      (h : H) (c : HeaderChain H) {c' : HeaderChain H}
      → push_root h c ≡ ok c'
      → c'.trunk_for ≡ c.trunk_for
  unfolding push_root
  push_root-trunk_for h c run = ground arith

  IsGrown-trunk_for : (t : H) (c : HeaderChain H) → IsGrown t c → c.trunk_for ≡ []
  unfolding new
  IsGrown-trunk_for t c alone = refl
  IsGrown-trunk_for t c (pushed {c = before} h grown run) =
      push_root-trunk_for h before run ∙ IsGrown-trunk_for t before grown

  IsGrown-headers :
      (t : H) (c : HeaderChain H) → IsGrown t c → (above : List H) × (headers c ≡ above ++ (t ∷ []))
  unfolding new headers
  IsGrown-headers t c alone = ([], refl)
  IsGrown-headers t c (pushed {c = before} h grown run) =
      let (above, shape) = IsGrown-headers t before grown in
      (h ∷ above, (headers-push_root h before run).0 ∙ ap (λ l. h ∷ l) shape)

  extend_tip-bare :
      (t x : H) (xs : List H) (c : HeaderChain H)
      → c.trunk_for ≡ []
      → block_hash c.root ≢ block_hash t
      → prev_blockhash x ≡ block_hash t
      → extend_tip (x ∷ xs) c ≡ err (chain_mismatch_tip (block_hash c.root) (block_hash x))
  unfolding extend_tip tip_hash Chain.root_hash
  extend_tip-bare t x xs c bare ne e =
      let off : (block_hash c.root == prev_blockhash x) ≡ false = ground (arith, ne, e) in
      rw (extend_tip, bare, off) refl

  -- A chain of one header that has then grown at its root only, by any number of headers, has that
  -- header at its end, but takes its root for its tip: headers that continue the true tip are
  -- refused with a mismatch, unless root and tip have the same hash.
  pub extend_tip-push_root :
      (t x : H) (xs : List H) (c : HeaderChain H)
      → IsGrown t c
      → block_hash c.root ≢ block_hash t
      → prev_blockhash x ≡ block_hash t
      → ((above : List H) × (headers c ≡ above ++ (t ∷ [])))
        × (extend_tip (x ∷ xs) c ≡ err (chain_mismatch_tip (block_hash c.root) (block_hash x)))
  extend_tip-push_root t x xs c grown ne e =
      (IsGrown-headers t c grown, extend_tip-bare t x xs c (IsGrown-trunk_for t c grown) ne e)

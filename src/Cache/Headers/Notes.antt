-- ===== src/Cache/Headers/Notes.antt =====
-- What is still to be written (vault-indexer/src/cache/headers.rs): every change of a record puts its
-- hash on the list `dirty`.
use mutinynet_indexer.Common.{
  ℕ, ◌≡◌, refl, ◌∙◌, ap, Bool, true, false, some, List, [], ◌∷◌, ◌++◌, inl, inr, ◌⊎◌, arith, ◌==◌,
  if◌then◌else◌,
}
use mutinynet_indexer.Common.Dict.{Dict, lookup, insert, lookup-insert_self, lookup-insert_ne}
use mutinynet_indexer.Cache.Headers.{HeadersCache}
use mutinynet_indexer.Db.Header.{HeaderRecord}
use native.Mathlib.Decide.{ℕ_discrete}

-- Whether a hash is on the list.
unfoldable pub elem : ℕ → List ℕ → Bool
elem h [] = false
elem h (x ∷ xs) = if x == h then true else elem h xs

pub elem-head : (k : ℕ) (xs : List ℕ) → elem k (k ∷ xs) ≡ true
unfolding elem
elem-head k xs = ground arith

elem-append_left : (h : ℕ) (xs ys : List ℕ) → elem h xs ≡ true → elem h (xs ++ ys) ≡ true
unfolding elem
elem-append_left h [] ys e = cc
elem-append_left h (x ∷ xs) ys e = ground (arith, elem-append_left h xs ys)

elem-append_last : (h : ℕ) (xs : List ℕ) → elem h (xs ++ (h ∷ [])) ≡ true
unfolding elem
elem-append_last h [] = ground arith
elem-append_last h (x ∷ xs) = ground (arith, elem-append_last h xs)

elem-append_cases :
    (h k : ℕ) (xs : List ℕ) → elem h (xs ++ (k ∷ [])) ≡ true → (elem h xs ≡ true) ⊎ (k ≡ h)
unfolding elem
elem-append_cases h k [] e = elim (ℕ_discrete k h) [
  | yes same ↦ inr same
  | no ne ↦ ground (arith, e)
]
elem-append_cases h k (x ∷ xs) e = elim (ℕ_discrete x h) [
  | yes same ↦ inl (ground arith)
  | no ne ↦
      (let rest : elem h (xs ++ (k ∷ [])) ≡ true = ground (arith, e) in
        elim (elem-append_cases h k xs rest) [
          | inl before ↦ inl (ground (arith, before))
          | inr last ↦ inr last
        ])
]

module _ {H : Type 0} where
  -- The record of the same header at the same height.
  abbrev pub Holds : Dict (HeaderRecord H) → ℕ → HeaderRecord H → Type 0
  Holds d h r =
      (r' : HeaderRecord H) × (lookup h d ≡ some r')
      × (r'.header ≡ r.header)
      × (r'.height ≡ r.height)

  -- Records keep their header and their height, and what changes is put on the list.
  pub record Notes (s s' : HeadersCache H) : Type 0 where
    pub kept : (h : ℕ) (r : HeaderRecord H) → lookup h s.headers ≡ some r → Holds s'.headers h r
    pub noted : (h : ℕ) → (lookup h s'.headers ≡ lookup h s.headers) ⊎ (elem h s'.dirty ≡ true)
    pub still : (h : ℕ) → elem h s.dirty ≡ true → elem h s'.dirty ≡ true
    pub stored :
        (h : ℕ)
        → elem h s'.dirty ≡ true
        → (elem h s.dirty ≡ true) ⊎ ((r : HeaderRecord H) × (lookup h s'.headers ≡ some r))

  pub Notes-refl : (s : HeadersCache H) → Notes s s
  Notes-refl s = record {
    kept = λ h r e. (r, e, refl, refl);
    noted = λ h. inl refl;
    still = λ h e. e;
    stored = λ h e. inl e;
  }

  pub Notes-trans : {s t u : HeadersCache H} → Notes s t → Notes t u → Notes s u
  Notes-trans n n' = record {
    kept = λ h r e.
        let (r', found, header, height) = n.kept h r e in
        let (r'', found', header', height') = n'.kept h r' found in
        (r'', found', header' ∙ header, height' ∙ height);
    noted = λ h. elim (n'.noted h) [
      | inr on ↦ inr on
      | inl same ↦ elim (n.noted h) [
        | inl same' ↦ inl (same ∙ same')
        | inr on ↦ inr (n'.still h on)
      ]
    ];
    still = λ h e. n'.still h (n.still h e);
    stored = λ h e. elim (n'.stored h e) [
      | inr at ↦ inr at
      | inl on ↦ elim (n.stored h on) [
        | inl before ↦ inl before
        | inr (r, found) ↦
            (let (r', found', header, height) = n'.kept h r found in inr (r', found'))
      ]
    ];
  }

  -- A record is written under a hash, and the hash is put on the list.
  pub Notes-insert :
      (k : ℕ) (v : HeaderRecord H) (s s' : HeadersCache H)
      → ((old : HeaderRecord H)
          → lookup k s.headers ≡ some old
          → (v.header ≡ old.header) × (v.height ≡ old.height))
      → s'.headers ≡ insert k v s.headers
      → s'.dirty ≡ s.dirty ++ (k ∷ [])
      → Notes s s'
  Notes-insert k v s s' same headers dirty = record {
    kept = λ h r e. elim (ℕ_discrete k h) [
      | yes eq ↦
          (let at : lookup k s.headers ≡ some r = cc in
            let found : lookup h s'.headers ≡ some v = cc (lookup-insert_self k v s.headers) in
            (v, found, (same r at).0, (same r at).1))
      | no ne ↦ (r, ap (lookup h) headers ∙ lookup-insert_ne h k v s.headers ne ∙ e, refl, refl)
    ];
    noted = λ h. elim (ℕ_discrete k h) [
      | yes eq ↦ inr (rw (dirty, eq) (elem-append_last h s.dirty))
      | no ne ↦ inl (ap (lookup h) headers ∙ lookup-insert_ne h k v s.headers ne)
    ];
    still = λ h e. rw dirty (elem-append_left h s.dirty (k ∷ []) e);
    stored = λ h e. elim (elem-append_cases h k s.dirty (rw dirty at e)) [
      | inl before ↦ inl before
      | inr eq ↦ inr (v, cc (lookup-insert_self k v s.headers))
    ];
  }

-- ===== src/Cache/Headers/Storage/Synced.antt =====
-- What the table of headers lacks of the cache is noted, and `store` writes it
-- (vault-indexer/src/cache/headers.rs).
use mutinynet_indexer.Common.{
  ℕ, ◌≡◌, ◌≢◌, refl, sym, ap, ◌∙◌, true, none, some, List, [], ◌∷◌, ◌++◌, inl, inr, ◌⊎◌,
  Option-cases, arith,
}
use mutinynet_indexer.Common.Dict.{
  Dict, lookup, insert, values, lookup-insert_self, lookup-insert_ne, insert-fresh,
}
use mutinynet_indexer.Cache.Block.{BlockHeader, block_hash}
use mutinynet_indexer.Cache.Error.{ok}
use mutinynet_indexer.Cache.Headers.{HeadersCache}
use mutinynet_indexer.Cache.Headers.Invariant.{IsForest}
use mutinynet_indexer.Cache.Headers.Notes.{Notes, Holds, elem, elem-head}
use mutinynet_indexer.Cache.Headers.Storage.{collect, store_dirty}
use mutinynet_indexer.Db.Header.{HeaderRecord, HeadersTable, store_raw_headers, insert_rows, upsert}
use mutinynet_indexer.Db.Header.Batches.{store_raw_headers-eq-insert_rows}
use mathlib.Core.List.{append-nil, append_assoc}
use native.Mathlib.Decide.{ℕ_discrete}

module _ {H : Type 0} ⦃b : BlockHeader H⦄ where
  -- The rows stand under the hashes of their headers, which differ.
  abbrev pub IsTable : HeadersTable H → Type 0
  IsTable [] = Unit {0}
  IsTable ((k, r) ∷ table) = (block_hash r.header ≡ k) × (lookup k table ≡ none) × IsTable table

  -- A table that lacks of the records only what is on the list, and has no row of another header.
  pub record IsSynced (d : Dict (HeaderRecord H)) (dirty : List ℕ) (table : HeadersTable H)
      : Type 0 where
    pub rows : (h : ℕ) → (lookup h table ≡ lookup h d) ⊎ (elem h dirty ≡ true)
    pub agree : (h : ℕ) (old : HeaderRecord H) → lookup h table ≡ some old → Holds d h old
    pub noted : (h : ℕ) → elem h dirty ≡ true → (r : HeaderRecord H) × (lookup h d ≡ some r)
    pub hashed : IsTable table

  -- A table stays in this state while the cache notes what it changes.
  pub Notes-IsSynced :
      {s s' : HeadersCache H} (table : HeadersTable H)
      → Notes s s'
      → IsSynced s.headers s.dirty table
      → IsSynced s'.headers s'.dirty table
  Notes-IsSynced table n i = record {
    rows = λ h. elim (n.noted h) [
      | inr on ↦ inr on
      | inl same ↦ elim (i.rows h) [
        | inl written ↦ inl (written ∙ sym same)
        | inr on ↦ inr (n.still h on)
      ]
    ];
    agree = λ h old e.
        let (r, found, header, height) = i.agree h old e in
        let (r', found', header', height') = n.kept h r found in
        (r', found', header' ∙ header, height' ∙ height);
    noted = λ h on. elim (n.stored h on) [
      | inr at ↦ at
      | inl before ↦
          (let (r, found) = i.noted h before in
            let (r', found', header, height) = n.kept h r found in (r', found'))
    ];
    hashed = i.hashed;
  }

  IsTable-insert :
      (k : ℕ) (r : HeaderRecord H) (table : HeadersTable H)
      → block_hash r.header ≡ k
      → IsTable table
      → IsTable (insert k r table)
  unfolding insert lookup
  IsTable-insert k r [] key i = (key, refl, tt)
  IsTable-insert k r ((j, q) ∷ table) key i = elim (ℕ_discrete j k) [
    | yes e ↦ ground (arith, e, i.0, i.1, i.2, key)
    | no ne ↦
        (let rest = IsTable-insert k r table key i.2 in
          let off = lookup-insert_ne j k r table (λ e. ne (sym e)) in
          ground (arith, rest, off, i.0, i.1))
  ]

  -- The row that is there differs in the mark at most, so the whole record is written.
  upsert-eq-insert :
      (r : HeaderRecord H) (table : HeadersTable H)
      → ((old : HeaderRecord H)
          → lookup (block_hash r.header) table ≡ some old
          → (r.header ≡ old.header) × (r.height ≡ old.height))
      → upsert r table ≡ insert (block_hash r.header) r table
  unfolding upsert
  upsert-eq-insert r table same = elim (Option-cases (lookup (block_hash r.header) table)) [
    | inl gone ↦ rw (gone, upsert) refl
    | inr (old, found) ↦
        (let (header, height) = same old found in
          let whole : record old { in_longest = r.in_longest } ≡ r = cc in
          rw (found, upsert) (ap (λ v. insert (block_hash r.header) v table) whole))
  ]

  store_one :
      (r : HeaderRecord H) (table : HeadersTable H)
      → store_raw_headers (r ∷ []) table ≡ upsert r table
  unfolding insert_rows
  store_one r table = store_raw_headers-eq-insert_rows (r ∷ []) table

  IsSynced-insert :
      (d : Dict (HeaderRecord H)) (k : ℕ) (rest : List ℕ) (r : HeaderRecord H)
      (table : HeadersTable H)
      → block_hash r.header ≡ k
      → lookup k d ≡ some r
      → IsSynced d (k ∷ rest) table
      → IsSynced d rest (insert k r table)
  unfolding elem
  IsSynced-insert d k rest r table key found i = record {
    rows = λ h. elim (ℕ_discrete k h) [
      | yes e ↦ inl (cc (lookup-insert_self k r table))
      | no ne ↦ elim (i.rows h) [
        | inl written ↦ inl (lookup-insert_ne h k r table ne ∙ written)
        | inr on ↦ inr (ground (arith, on, ne))
      ]
    ];
    agree = λ h old e. elim (ℕ_discrete k h) [
      | yes same ↦
          (let this : r ≡ old = cc (lookup-insert_self k r table) in
            (
              r,
              cc,
              ap (λ (q : HeaderRecord H). q.header) this,
              ap (λ (q : HeaderRecord H). q.height) this,
            ))
      | no ne ↦ i.agree h old (sym (lookup-insert_ne h k r table ne) ∙ e)
    ];
    noted = λ h on. elim (ℕ_discrete k h) [
      | yes e ↦ (r, cc)
      | no ne ↦ i.noted h (ground (arith, on, ne))
    ];
    hashed = IsTable-insert k r table key i.hashed;
  }

  agree_at :
      (d : Dict (HeaderRecord H)) (k : ℕ) (r old : HeaderRecord H)
      → lookup k d ≡ some r
      → Holds d k old
      → (r.header ≡ old.header) × (r.height ≡ old.height)
  agree_at d k r old found (q, found', header, height) =
      let this : r ≡ q = cc in
      (
        ap (λ (q : HeaderRecord H). q.header) this ∙ header,
        ap (λ (q : HeaderRecord H). q.height) this ∙ height,
      )

  -- The loop of `store` writes all that the table lacks.
  pub store_dirty-writes :
      (dirty : List ℕ) (s : HeadersCache H) (table : HeadersTable H)
      → IsForest s.headers
      → IsSynced s.headers dirty table
      → (table' : HeadersTable H) × (store_dirty dirty s table ≡ ok table')
        × IsSynced s.headers [] table'
  unfolding store_dirty
  store_dirty-writes [] s table f i = (table, refl, i)
  store_dirty-writes (k ∷ dirty) s table f i =
      let (r, found) = i.noted k (elem-head k dirty) in
      let key : block_hash r.header ≡ k = f.keyed k r found in
      let same : (old : HeaderRecord H)
          → lookup (block_hash r.header) table ≡ some old
          → (r.header ≡ old.header) × (r.height ≡ old.height) =
        λ old e. agree_at s.headers k r old found (i.agree k old (rw (← key) e)) in
      let written : store_raw_headers (r ∷ []) table ≡ insert k r table =
        store_one r table ∙ upsert-eq-insert r table same ∙ ap (λ h. insert h r table) key in
      let (table', ran, done) =
        store_dirty-writes dirty s (insert k r table) f
          (IsSynced-insert s.headers k dirty r table key found i) in
      (table', rw (found, written) ran, done)

  lookup-append :
      (d : HeadersTable H) (k : ℕ) (r : HeaderRecord H) (h : ℕ)
      → k ≢ h
      → lookup h (d ++ ((k, r) ∷ [])) ≡ lookup h d
  unfolding lookup
  lookup-append [] k r h ne = ground arith
  lookup-append ((j, q) ∷ d) k r h ne = ground (arith, lookup-append d k r h ne)

  -- Reading a table into a map gives the table back.
  collect-append :
      (table d : HeadersTable H)
      → IsTable table
      → ((h : ℕ) (r : HeaderRecord H) → lookup h table ≡ some r → lookup h d ≡ none)
      → collect (values table) d ≡ d ++ table
  unfolding collect values lookup
  collect-append [] d i apart = sym (append-nil d)
  collect-append ((k, r) ∷ table) d (key, off, i) apart =
      let new : lookup k d ≡ none = apart k r (ground arith) in
      let added : insert (block_hash r.header) r d ≡ d ++ ((k, r) ∷ []) =
        rw key (insert-fresh k r d new) in
      ap (collect (values table)) added
      ∙ (collect-append table (d ++ ((k, r) ∷ [])) i (λ h q e.
            let ne : k ≢ h = λ eq. cc in lookup-append d k r h ne ∙ apart h q (ground (arith, e)))
          ∙ append_assoc d ((k, r) ∷ []) table)

  pub collect-table : (table : HeadersTable H) → IsTable table → collect (values table) [] ≡ table
  unfolding lookup
  collect-table table i = collect-append table [] i (λ h r e. refl)

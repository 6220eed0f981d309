-- ===== src/Db/Header/Batches.antt =====
-- The batches of `store_raw_headers` (vault-indexer/src/db/header.rs) and the rows one by one.
use mutinynet_indexer.Common.{
  ℕ, zero, suc, ◌≤◌, ◌<◌, ◌≡◌, refl, sym, ap, ◌∙◌, Bool, true, false, List, [], ◌∷◌, ◌++◌, length,
  take, drop, take-append-drop, ltb, ltb→lt, ltb→ge, arith, if◌then◌else◌,
}
use mutinynet_indexer.Cache.Block.{BlockHeader}
use mutinynet_indexer.Db.Header.{
  HeaderRecord, HeadersTable, batch_size, insert_rows, store_batches, store_raw_headers,
}

length-drop_lt :
    {A : Type 0} (n : ℕ) (xs : List A) → 0 < n → 0 < length xs → length (drop n xs) < length xs
length-drop_lt zero xs h lt = elim h [ ]
length-drop_lt (suc n) [] h lt = elim lt [ ]
length-drop_lt (suc zero) (x ∷ xs) h lt = omega arith
length-drop_lt (suc (suc n)) (x ∷ []) h lt = omega arith
length-drop_lt (suc (suc n)) (x ∷ y ∷ xs) h lt =
    omega (arith, length-drop_lt (suc n) (y ∷ xs) (omega arith) (omega arith))

module _ {H : Type 0} ⦃b : BlockHeader H⦄ where
  insert_rows-append :
      (xs ys : List (HeaderRecord H)) (table : HeadersTable H)
      → insert_rows (xs ++ ys) table ≡ insert_rows ys (insert_rows xs table)
  unfolding insert_rows
  insert_rows-append [] ys table = refl
  insert_rows-append (x ∷ xs) ys table = insert_rows-append xs ys _

  insert_rows-nil :
      (rs : List (HeaderRecord H)) (table : HeadersTable H)
      → length rs ≤ 0
      → table ≡ insert_rows rs table
  unfolding insert_rows
  insert_rows-nil [] table h = refl
  insert_rows-nil (r ∷ rs) table h = elim h [ ]

  if_rows :
      (t : Bool) (x table whole : HeadersTable H)
      → (t ≡ true → x ≡ whole)
      → (t ≡ false → table ≡ whole)
      → (if t then x else table) ≡ whole
  if_rows true x table whole h k = h refl
  if_rows false x table whole h k = k refl

  store_batches-eq-insert_rows :
      (fuel : ℕ) (rs : List (HeaderRecord H)) (table : HeadersTable H)
      → length rs ≤ fuel
      → store_batches fuel rs table ≡ insert_rows rs table
  unfolding store_batches
  store_batches-eq-insert_rows zero rs table le = insert_rows-nil rs table le
  store_batches-eq-insert_rows (suc fuel) rs table le =
      if_rows (ltb 0 (length rs)) _ table (insert_rows rs table)
        (λ more.
          let less = length-drop_lt batch_size rs (omega arith) (ltb→lt 0 (length rs) more) in
          store_batches-eq-insert_rows fuel (drop batch_size rs)
            (insert_rows (take batch_size rs) table) (omega arith)
          ∙ sym (insert_rows-append (take batch_size rs) (drop batch_size rs) table)
          ∙ ap (λ l. insert_rows l table) (take-append-drop batch_size rs))
        (λ done. insert_rows-nil rs table (ltb→ge 0 (length rs) done))

  -- Storing headers in batches stores them one by one, in their order: the rounds end when no
  -- header is left.
  pub store_raw_headers-eq-insert_rows :
      (rs : List (HeaderRecord H)) (table : HeadersTable H)
      → store_raw_headers rs table ≡ insert_rows rs table
  unfolding store_raw_headers
  store_raw_headers-eq-insert_rows rs table =
      store_batches-eq-insert_rows (length rs) rs table (omega arith)

-- ===== src/Db/Vault/Advance/Totals.antt =====
-- What the queries over the history give (vault-indexer/src/db/vault/advance.rs).
use mathlib.Core.Path.{subst}
use mathlib.Core.List.{Permᴰ}
use mathlib.Core.List.Permᴰ
use mutinynet_indexer.Common.Outcome.{Outcome}
use mutinynet_indexer.Common.Text.{Lowercase}
use mutinynet_indexer.Common.{
  ℕ, ◌+◌, ◌*◌, ◌/◌, ◌≤◌, ◌≡◌, refl, sym, ap, ◌∙◌, Bool, true, false, ◌&&◌, Option, List, [], ◌∷◌,
  ◌++◌, ltb, ltb→lt, ◌==◌, arith, inl, inr, Bool-cases, if◌then◌else◌,
}
use mutinynet_indexer.Common.Dict.{Dict, values, insert-fresh}
use mutinynet_indexer.Db.Error.{Result, ok, err, ◌>>=◌, fetch_row, guard, >>=-eq-ok, ok-injective}
use mutinynet_indexer.Db.Vault.{VaultTxMeta, VaultTables, Place, store_vault_tx}
use mutinynet_indexer.Db.Vault.Advance.{
  ActionAggItem, select, in_range, range_history_all, range_history_vault, add_to_bucket, buckets,
  collect, fetch, RowOrder, all_fit, is_action, action_aggregated, total, abs,
}
use mutinynet_indexer.Db.Loaders.{RowGet, HashBytes, RowError}
use mutinynet_indexer.Db.Loaders.Readable.{IsTypedTx, IsTypedPlace, IsReadable, stored-IsTyped}
use mutinynet_indexer.Db.Loaders.RoundTrip.{IsTyped, load_vault_meta-vault_row}
use mutinynet_indexer.Db.Vault.Invariant.{IsConsistent}
use mutinynet_indexer.Db.Vault.Store.Consistent.{store_vault_tx-IsStored}
use mutinynet_indexer.Vault.Action.{VaultAction}
use mutinynet_indexer.Vault.Bitcoin.{Transaction}
use mutinynet_indexer.Vault.Transaction.{VaultTx}

values-append : {V : Type 0} (d e : Dict V) → values (d ++ e) ≡ values d ++ values e
unfolding values
values-append [] e = refl
values-append ((k, v) ∷ d) e = ap (λ l. v ∷ l) (values-append d e)

select-append :
    (holds : VaultTxMeta → Bool) (xs ys : List VaultTxMeta)
    → select holds (xs ++ ys) ≡ select holds xs ++ select holds ys
unfolding select
select-append holds [] ys = refl
select-append holds (x ∷ xs) ys = elim (Bool-cases (holds x)) [
  | inl on ↦ rw (on) (ap (λ l. x ∷ l) (select-append holds xs ys))
  | inr off ↦ rw (off) (select-append holds xs ys)
]

stored-values :
    (v : VaultTx) (place : Place) (raw_tx : Transaction) (db db' : VaultTables) (m : VaultTxMeta)
    → IsConsistent db
    → store_vault_tx v place raw_tx db ≡ ok (m, db')
    → values db'.transactions ≡ values db.transactions ++ (m ∷ [])
unfolding values
stored-values v place raw_tx db db' m c run =
    let stored = store_vault_tx-IsStored v place raw_tx db db' m c run in
    ap (λ t. values t.transactions) (sym stored.tables)
    ∙ ap values (insert-fresh v.txid m db.transactions stored.fresh)
    ∙ values-append db.transactions ((v.txid, m) ∷ [])

-- All rows of a list are of the types of their fields.
abbrev pub AllTyped : List VaultTxMeta → Type 0
AllTyped [] = Unit {0}
AllTyped (row ∷ rows) = IsTyped row × AllTyped rows

AllTyped-Permᴰ : {xs ys : List VaultTxMeta} → Permᴰ xs ys → AllTyped ys → AllTyped xs
AllTyped-Permᴰ Permᴰ.nil all = tt
AllTyped-Permᴰ (Permᴰ.cons e d) (here, all) = (subst IsTyped (sym e) here, AllTyped-Permᴰ d all)
AllTyped-Permᴰ (Permᴰ.swap e e') (one, (two, all)) =
    (subst IsTyped (sym e) two, (subst IsTyped (sym e') one, all))
AllTyped-Permᴰ (Permᴰ.trans d d') all = AllTyped-Permᴰ d (AllTyped-Permᴰ d' all)

AllTyped-select :
    (holds : VaultTxMeta → Bool) (rows : List VaultTxMeta)
    → AllTyped rows
    → AllTyped (select holds rows)
unfolding select
AllTyped-select holds [] all = tt
AllTyped-select holds (row ∷ rows) (here, all) = elim (Bool-cases (holds row)) [
  | inl on ↦ rw (select, on) (here, AllTyped-select holds rows all)
  | inr off ↦ rw (select, off) (AllTyped-select holds rows all)
]

AllTyped-append : (xs ys : List VaultTxMeta) → AllTyped xs → AllTyped ys → AllTyped (xs ++ ys)
AllTyped-append [] ys all more = more
AllTyped-append (x ∷ xs) ys (here, all) more = (here, AllTyped-append xs ys all more)

if-AllTyped : (t : Bool) (m : VaultTxMeta) → IsTyped m → AllTyped (if t then m ∷ [] else [])
if-AllTyped true m typed = (typed, tt)
if-AllTyped false m typed = tt

module _ ⦃g : RowGet⦄ ⦃h : HashBytes⦄ ⦃l : Lowercase⦄ where
  fetch-IsTyped : (row : VaultTxMeta) → IsTyped row → fetch row ≡ ok row
  unfolding fetch
  fetch-IsTyped row typed =
      ap
        (λ (loaded : Outcome RowError VaultTxMeta). elim loaded [
          | err _ ↦ err fetch_row
          | ok m ↦ ok m
        ])
        (load_vault_meta-vault_row row [] typed)

  collect-AllTyped : (rows : List VaultTxMeta) → AllTyped rows → collect rows ≡ ok rows
  unfolding collect
  collect-AllTyped [] all = refl
  collect-AllTyped (row ∷ rows) (here, all) =
      ap (λ read. read >>= (λ m. collect rows >>= (λ rest. ok (m ∷ rest)))) (fetch-IsTyped row here)
      ∙ ap (λ read. read >>= (λ rest. ok (row ∷ rest))) (collect-AllTyped rows all)

  module _ ⦃q : RowOrder⦄ where
    -- A query is answered without an error, by the rows that it selects in some order.
    abbrev pub Answers : Result (List VaultTxMeta) → List VaultTxMeta → Type 0
    Answers answer rows = (given : List VaultTxMeta) × (answer ≡ ok given) × Permᴰ given rows

    collect-Answers :
        (rows : List VaultTxMeta) → AllTyped rows → Answers (collect (q.arrange rows)) rows
    collect-Answers rows all = (
      q.arrange rows,
      collect-AllTyped (q.arrange rows) (AllTyped-Permᴰ (q.arrange_permutes rows) all),
      q.arrange_permutes rows,
    )

    -- What a query gives before and after.
    abbrev pub Gains :
        Result (List VaultTxMeta) → Result (List VaultTxMeta) → List VaultTxMeta → Type 0
    Gains before after new =
        (old : List VaultTxMeta) × (before ≡ ok old) × Answers after (old ++ new)

    Gains-select :
        (holds : VaultTxMeta → Bool) (rows rows' : List VaultTxMeta) (m : VaultTxMeta)
        → AllTyped rows
        → IsTyped m
        → rows' ≡ rows ++ (m ∷ [])
        → Gains
            (collect (q.arrange (select holds rows)))
            (collect (q.arrange (select holds rows')))
            (if holds m then m ∷ [] else [])
    unfolding select
    Gains-select holds rows rows' m all typed same =
        let new : List VaultTxMeta = if holds m then m ∷ [] else [] in
        let old : List VaultTxMeta = select holds rows in
        let grown : select holds rows' ≡ old ++ new =
          ap (select holds) same ∙ select-append holds rows (m ∷ []) in
        let olds = AllTyped-select holds rows all in
        let (before, ran, permuted) = collect-Answers old olds in
        let (after, ran', permuted') =
          collect-Answers (old ++ new)
            (AllTyped-append old new olds (if-AllTyped (holds m) m typed)) in
        (
          before,
          ran,
          (
            after,
            ap (λ list. collect (q.arrange list)) grown ∙ ran',
            Permᴰ.trans permuted' (Permᴰ.symm (Permᴰ.append_right new permuted)),
          ),
        )

    -- When a vault transaction whose fields are of their types is stored in consistent tables whose
    -- rows are so, both queries are answered without an error before and after, in whatever order
    -- the rows come: the history of all vaults and that of its own vault gain its record where its
    -- timestamp is in the range, and nothing else, and no history of another vault changes.
    pub range_history-store :
        (v : VaultTx) (place : Place) (raw_tx : Transaction) (db db' : VaultTables)
        (m : VaultTxMeta) (id : ℕ) (start end : Option ℕ)
        → IsTypedTx v
        → IsTypedPlace place
        → IsConsistent db
        → IsReadable db
        → AllTyped (values db.transactions)
        → store_vault_tx v place raw_tx db ≡ ok (m, db')
        → Gains
            (range_history_all start end db)
            (range_history_all start end db')
            (if in_range start end m then m ∷ [] else [])
          × Gains
              (range_history_vault id start end db)
              (range_history_vault id start end db')
              (if (m.vault_id == id) && in_range start end m then m ∷ [] else [])
    unfolding range_history_all range_history_vault
    range_history-store v place raw_tx db db' m id start end typed placed c good all run =
        let fits = stored-IsTyped v place raw_tx db db' m typed placed good run in
        let rows = stored-values v place raw_tx db db' m c run in
        (
          Gains-select (in_range start end) _ _ m all fits rows,
          Gains-select (λ row. (row.vault_id == id) && in_range start end row) _ _ m all fits rows,
        )

-- The sums over the buckets.
unfoldable pub sum_of : (ActionAggItem → ℕ) → List ActionAggItem → ℕ
sum_of f [] = 0
sum_of f (item ∷ items) = f item + sum_of f items

-- The buckets begin at or after a bound, at multiples of the span, and each after the one before.
abbrev pub IsOrdered : ℕ → ℕ → List ActionAggItem → Type 0
IsOrdered span bound [] = Unit {0}
IsOrdered span bound (item ∷ items) =
    (bound ≤ item.timestamp_start)
    × ((n : ℕ) × (n * span ≡ item.timestamp_start))
    × IsOrdered span (item.timestamp_start + 1) items

add_to_bucket-sums :
    (start unit btc : ℕ) (items : List ActionAggItem)
    → (sum_of (λ i. i.unit_volume) (add_to_bucket start unit btc items)
        ≡ unit + sum_of (λ i. i.unit_volume) items)
      × (sum_of (λ i. i.btc_volume) (add_to_bucket start unit btc items)
          ≡ btc + sum_of (λ i. i.btc_volume) items)
unfolding sum_of add_to_bucket
add_to_bucket-sums start unit btc [] = (refl, refl)
add_to_bucket-sums start unit btc (item ∷ items) =
    let (units, btcs) = add_to_bucket-sums start unit btc items in
    (ground (arith, units), ground (arith, btcs))

add_to_bucket-IsOrdered :
    (span bound start unit btc n : ℕ) (items : List ActionAggItem)
    → n * span ≡ start
    → bound ≤ start
    → IsOrdered span bound items
    → IsOrdered span bound (add_to_bucket start unit btc items)
unfolding add_to_bucket
add_to_bucket-IsOrdered span bound start unit btc n [] at le ordered = (le, (n, at), tt)
add_to_bucket-IsOrdered span bound start unit btc n (item ∷ items) at le (low, on, rest) =
    elim (Bool-cases (ltb start item.timestamp_start)) [
      | inl below ↦
          rw below (le, (n, at), (omega (arith, ltb→lt start item.timestamp_start below), on, rest))
      | inr not_below ↦ elim (Bool-cases (start == item.timestamp_start)) [
        | inl same ↦ rw (not_below, same) (low, on, rest)
        | inr other ↦
            (let above : item.timestamp_start + 1 ≤ start = ground (arith, not_below, other) in
              rw (not_below, other)
                (
                  low,
                  on,
                  add_to_bucket-IsOrdered span (item.timestamp_start + 1) start unit btc n items at
                      above rest,
                ))
      ]
    ]

buckets-IsOrdered : (span : ℕ) (rows : List VaultTxMeta) → IsOrdered span 0 (buckets span rows)
unfolding buckets
buckets-IsOrdered span [] = tt
buckets-IsOrdered span (row ∷ rows) =
    add_to_bucket-IsOrdered span 0 (row.vault_tx.oracle_timestamp / span * span)
      (abs row.unit_volume) (abs row.btc_volume) (row.vault_tx.oracle_timestamp / span)
      (buckets span rows) refl (omega arith) (buckets-IsOrdered span rows)

buckets-sums :
    (span : ℕ) (rows : List VaultTxMeta)
    → (sum_of (λ i. i.unit_volume) (buckets span rows) ≡ total (λ r. abs r.unit_volume) rows)
      × (sum_of (λ i. i.btc_volume) (buckets span rows) ≡ total (λ r. abs r.btc_volume) rows)
unfolding buckets sum_of total
buckets-sums span [] = (refl, refl)
buckets-sums span (row ∷ rows) =
    let (units, btcs) = buckets-sums span rows in
    let (added, added') =
      add_to_bucket-sums (row.vault_tx.oracle_timestamp / span * span) (abs row.unit_volume)
        (abs row.btc_volume) (buckets span rows) in
    (
      added ∙ ap (λ n. abs row.unit_volume + n) units,
      added' ∙ ap (λ n. abs row.btc_volume + n) btcs,
    )

-- Where the query over the volumes of an action succeeds, its buckets begin at multiples of the
-- span, each later than the one before, and no volume is lost or counted twice: the UNIT volumes
-- of the buckets add up to the sum of the absolute UNIT volumes of the transactions with the
-- action, and so do the BTC volumes.
pub action_aggregated-sums :
    (action : VaultAction) (timespan : ℕ) (db : VaultTables) (items : List ActionAggItem)
    → action_aggregated action timespan db ≡ ok items
    → IsOrdered timespan 0 items
      × (sum_of (λ i. i.unit_volume) items
          ≡ total (λ r. abs r.unit_volume) (select (is_action action) (values db.transactions)))
      × (sum_of (λ i. i.btc_volume) items
          ≡ total (λ r. abs r.btc_volume) (select (is_action action) (values db.transactions)))
unfolding action_aggregated
action_aggregated-sums action timespan db items run =
    let rows : List VaultTxMeta = select (is_action action) (values db.transactions) in
    let made : List ActionAggItem = buckets timespan rows in
    let (_, fit, last) =
      >>=-eq-ok (guard (all_fit made && ltb 0 timespan) fetch_row) (λ _. ok made) run in
    let same : made ≡ items = ok-injective last in
    let (units, btcs) = buckets-sums timespan rows in
    (
      subst (IsOrdered timespan 0) same (buckets-IsOrdered timespan rows),
      ap (sum_of (λ i. i.unit_volume)) (sym same) ∙ units,
      ap (sum_of (λ i. i.btc_volume)) (sym same) ∙ btcs,
    )

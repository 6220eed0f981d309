-- ===== src/Db/Vault/Advance.antt =====
-- The queries over the history of vaults (vault-indexer/src/db/vault/advance.rs). What a
-- query selects comes in any order, unless the query gives one.
pub mod Totals
use mutinynet_indexer.Common.{
  ℕ, ◌+◌, ◌-◌, ◌*◌, ◌/◌, ◌^◌, Bool, true, false, not, ◌&&◌, Option, none, some, List, [], ◌∷◌, ltb,
  leb, ◌==◌, if◌then◌else◌,
}
use mutinynet_indexer.Common.Int.{ℤ, pos, pos_part, neg_part}
use mutinynet_indexer.Common.Dict.{Dict, values}
use mathlib.Core.List.{Permᴰ}
use mutinynet_indexer.Common.Outcome as Outcome
use mutinynet_indexer.Common.Text.{Lowercase}
use mutinynet_indexer.Db.Loaders.{RowGet, HashBytes, load_vault_meta, vault_row}
use mutinynet_indexer.Db.Error.{Result, ok, err, fetch_row, guard, ◌>>=◌}
use mutinynet_indexer.Db.Vault.{VaultTxMeta, VaultTables}
use mutinynet_indexer.Vault.Action.{VaultAction}
use mutinynet_indexer.Vault.Action

-- `Option::unwrap_or`
abbrev pub unwrap_or : Option ℕ → ℕ → ℕ
unwrap_or none default = default
unwrap_or (some n) default = n

-- `SELECT … WHERE`
unfoldable pub select : (VaultTxMeta → Bool) → List VaultTxMeta → List VaultTxMeta
select holds [] = []
select holds (row ∷ rows) = let rest = select holds rows in if holds row then row ∷ rest else rest

abbrev pub in_range : Option ℕ → Option ℕ → VaultTxMeta → Bool
in_range start end row =
    leb (unwrap_or start 0) row.vault_tx.oracle_timestamp
    && ltb row.vault_tx.oracle_timestamp (unwrap_or end (2 ^ 32 - 1))

-- The order in which SQLite gives the rows of a query that has no ORDER BY: any.
pub record RowOrder : Type 0 where
  pub arrange : List VaultTxMeta → List VaultTxMeta
  pub arrange_permutes : (rows : List VaultTxMeta) → Permᴰ (arrange rows) rows

module _ ⦃g : RowGet⦄ ⦃h : HashBytes⦄ ⦃l : Lowercase⦄ where
  -- A row is read from its columns. The column of the raw transaction is not looked at.
  unfoldable pub fetch : VaultTxMeta → Result VaultTxMeta
  unfolding load_vault_meta vault_row
  fetch row = elim (load_vault_meta (vault_row row [])) [
    | Outcome.err _ ↦ err fetch_row
    | Outcome.ok m ↦ ok m
  ]

  -- The rows are read one after another, up to the first that cannot be read.
  unfoldable pub collect : List VaultTxMeta → Result (List VaultTxMeta)
  unfolding fetch
  collect [] = ok []
  collect (row ∷ rows) = do m ← fetch row; rest ← collect rows; ok (m ∷ rest)

  unfoldable pub range_history_all :
      ⦃q : RowOrder⦄ → Option ℕ → Option ℕ → VaultTables → Result (List VaultTxMeta)
  unfolding select collect
  range_history_all ⦃q⦄ start end db =
      collect (q.arrange (select (in_range start end) (values db.transactions)))

  unfoldable pub range_history_vault :
      ⦃q : RowOrder⦄ → ℕ → Option ℕ → Option ℕ → VaultTables → Result (List VaultTxMeta)
  unfolding select collect
  range_history_vault ⦃q⦄ vault_id start end db = collect (
      q.arrange (
        select (λ row. (row.vault_id == vault_id) && in_range start end row)
          (values db.transactions)))

pub record ActionAggItem : Type 0 where
  pub timestamp_start : ℕ
  pub unit_volume : ℕ
  pub btc_volume : ℕ

-- `abs` of SQLite
abbrev pub abs : ℤ → ℕ
abs z = pos_part z + neg_part z

-- `GROUP BY … ORDER BY` with two sums: a row is added to its bucket, and the buckets stay in order.
unfoldable pub add_to_bucket : ℕ → ℕ → ℕ → List ActionAggItem → List ActionAggItem
add_to_bucket start unit btc [] =
    record { timestamp_start = start; unit_volume = unit; btc_volume = btc } ∷ []
add_to_bucket start unit btc (item ∷ items) =
    let rest = add_to_bucket start unit btc items in
    if ltb start item.timestamp_start
    then record { timestamp_start = start; unit_volume = unit; btc_volume = btc } ∷ item ∷ items
    else if start == item.timestamp_start
    then record item { unit_volume = unit + item.unit_volume; btc_volume = btc + item.btc_volume }
      ∷ items
    else item ∷ rest

unfoldable pub buckets : ℕ → List VaultTxMeta → List ActionAggItem
unfolding add_to_bucket
buckets span [] = []
buckets span (row ∷ rows) =
    add_to_bucket (row.vault_tx.oracle_timestamp / span * span) (abs row.unit_volume)
      (abs row.btc_volume) (buckets span rows)

-- The columns are read as an `i32` and an `i64`.
unfoldable pub all_fit : List ActionAggItem → Bool
all_fit [] = true
all_fit (item ∷ items) =
    (ltb item.unit_volume (2 ^ 31) && ltb item.btc_volume (2 ^ 63)) && all_fit items

abbrev pub is_action : VaultAction → VaultTxMeta → Bool
is_action action row = Action.to_protocol action == Action.to_protocol row.vault_tx.action

-- A span of zero makes the buckets NULL.
unfoldable pub action_aggregated : VaultAction → ℕ → VaultTables → Result (List ActionAggItem)
unfolding select buckets all_fit
action_aggregated action timespan db = do
  let rows = select (is_action action) (values db.transactions)
  let items = buckets timespan rows
  _ ← guard (all_fit items && ltb 0 timespan) fetch_row
  ok items

unfoldable pub total : (VaultTxMeta → ℕ) → List VaultTxMeta → ℕ
total f [] = 0
total f (row ∷ rows) = f row + total f rows

-- A sum over no rows is NULL, and no `i64`.
unfoldable pub overall_volume : VaultTables → Result (ℕ × ℕ)
unfolding total
overall_volume db = elim (values db.transactions) [
  | [] ↦ err fetch_row
  | row ∷ rows ↦ (do
    let btc_volume = total (λ r. abs r.btc_volume) (row ∷ rows)
    let unit_volume = total (λ r. abs r.unit_volume) (row ∷ rows)
    _ ← guard (ltb btc_volume (2 ^ 63) && ltb unit_volume (2 ^ 63)) fetch_row
    ok (btc_volume, unit_volume))
]

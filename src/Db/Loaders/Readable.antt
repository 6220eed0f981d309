-- ===== src/Db/Loaders/Readable.antt =====
-- The rows that `store_vault_tx` (vault-indexer/src/db/vault/basic.rs) writes can be read.
use mathlib.Core.Path.{subst}
use mutinynet_indexer.Common.{
  ℕ, ◌^◌, ◌<◌, ◌≡◌, sym, ap, ◌∙◌, Bool, true, false, some, List, length, inl, inr, arith, get_elem?,
  Option-cases,
}
use mutinynet_indexer.Common.Dict.{lookup, insert, lookup-insert_cases}
use mutinynet_indexer.Common.Int.{ℤ, pos, negsuc, ◌-ℤ◌}
use mutinynet_indexer.Common.Outcome as Outcome
use mutinynet_indexer.Common.Text.{Lowercase}
use mutinynet_indexer.Db.Error.{
  ok, ok-injective, vault_tx_no_inputs, unknown_vault_tx, ok_or, >>=-eq-ok, ◌>>=◌,
}
use mutinynet_indexer.Db.Loaders.{RowGet, HashBytes, IsSigned, load_vault_meta, vault_row}
use mutinynet_indexer.Db.Loaders.RoundTrip.{Holds?, IsTyped, load_vault_meta-vault_row}
use mutinynet_indexer.Db.Vault.{
  VaultRow, VaultTxMeta, VaultTables, Place, is_open, find_vault_by_tx, parent_vault,
  find_parent_vault, create_vault, update_vault, get_vault_chaining_info, chain_vault, with_sign,
  get_unit_volume, insert_vault_tx_raw, store_vault_tx, load_unit_tx,
}
use mutinynet_indexer.Db.Vault.Invariant.{IsConsistent, extended}
use mutinynet_indexer.Db.Vault.Store as Store
use mutinynet_indexer.Db.Vault.Store.{create_vault-adds, update_vault-writes}
use mutinynet_indexer.Db.Vault.Store.Consistent.{
  chaining_info-row, stages-eq-ok, store_vault_tx-IsStored,
}
use mutinynet_indexer.Vault.Bitcoin.{Transaction}
use mutinynet_indexer.Vault.Custody.{assume_custody_value}
use mutinynet_indexer.Vault.Transaction.{VaultTx}

-- The fields of a vault transaction are of their types.
pub record IsTypedTx (v : VaultTx) : Type 0 where
  pub txid : v.txid < 2 ^ 256
  pub output : v.output < 2 ^ 32
  pub balance : v.balance < 2 ^ 32
  pub oracle_price : v.oracle_price < 2 ^ 32
  pub oracle_timestamp : v.oracle_timestamp < 2 ^ 32
  pub liquidation_price : Holds? (λ price. price < 2 ^ 32) v.liquidation_price
  pub liquidation_hash : Holds? (λ (hash : List ℕ). length hash ≡ 20) v.liquidation_hash

pub record IsTypedPlace (place : Place) : Type 0 where
  pub block_hash : place.block_hash < 2 ^ 256
  pub block_pos : place.block_pos < 2 ^ 63
  pub height : place.height < 2 ^ 32

-- The fields of a vault that go into the row of its next transaction.
pub record IsTypedVault (row : VaultRow) : Type 0 where
  pub custody : row.custody < 2 ^ 63
  pub last_tx : row.last_tx < 2 ^ 256

pub record IsReadable (db : VaultTables) : Type 0 where
  pub vaults : (id : ℕ) (row : VaultRow) → lookup id db.vaults ≡ some row → IsTypedVault row
  pub transactions : (txid : ℕ) (m : VaultTxMeta) → lookup txid db.transactions ≡ some m → IsTyped m

-- The vault of a transaction that opens none is that of a row.
parent_vault-row :
    (v : VaultTx) (raw_tx : Transaction) (db : VaultTables) {id : ℕ}
    → parent_vault false v raw_tx db ≡ ok id
    → (txid : ℕ) × (m : VaultTxMeta) × (lookup txid db.transactions ≡ some m) × (m.vault_id ≡ id)
unfolding parent_vault find_vault_by_tx
parent_vault-row v raw_tx db run =
    let (first_input, _, rest) =
      >>=-eq-ok (ok_or (get_elem? raw_tx.input 0) (vault_tx_no_inputs v.txid))
        (λ first_input.
          ok_or (find_vault_by_tx first_input.previous_txid db) (unknown_vault_tx v.txid))
        run in
    elim (Option-cases (lookup first_input.previous_txid db.transactions)) [
      | inl gone ↦ absurd (ground (arith, gone, rest))
      | inr (m, there) ↦ (first_input.previous_txid, m, there, ground (arith, there, rest))
    ]

parent_vault-fits :
    (opens : Bool) (v : VaultTx) (raw_tx : Transaction) (db : VaultTables) {id : ℕ}
    → v.txid < 2 ^ 256
    → IsReadable db
    → parent_vault opens v raw_tx db ≡ ok id
    → id < 2 ^ 256
unfolding parent_vault
parent_vault-fits true v raw_tx db fits good run = subst (λ n. n < 2 ^ 256) (ok-injective run) fits
parent_vault-fits false v raw_tx db fits good run =
    let (txid, m, found, same) = parent_vault-row v raw_tx db run in
    subst (λ n. n < 2 ^ 256) same (good.transactions txid m found).vault_id

with_sign-IsSigned : (sign : ℤ) (amount : ℕ) → IsSigned 32 (with_sign sign amount)
unfolding ◌-ℤ◌
with_sign-IsSigned (pos n) amount = ground arith
with_sign-IsSigned (negsuc n) amount = ground arith

get_unit_volume-IsSigned :
    (v : VaultTx) (raw_tx : Transaction) (db : VaultTables) {volume : ℤ}
    → get_unit_volume v raw_tx db ≡ ok volume
    → IsSigned 32 volume
unfolding get_unit_volume load_unit_tx
get_unit_volume-IsSigned v raw_tx db run = grind (arith, with_sign-IsSigned)

insert_vault_tx_raw-fits :
    (v : VaultTx) (id : ℕ) (place : Place) (raw_tx : Transaction) (prev : ℕ) (unit_volume : ℤ)
    (prev_tx : ℕ) (db : VaultTables) (custody : ℕ) {result : ℤ × VaultTables}
    → assume_custody_value v raw_tx ≡ ok custody
    → insert_vault_tx_raw v id place raw_tx prev unit_volume prev_tx db ≡ ok result
    → custody < 2 ^ 63
unfolding insert_vault_tx_raw
insert_vault_tx_raw-fits v id place raw_tx prev unit_volume prev_tx db custody held run =
    ground arith

info-last :
    (id : ℕ) (db : VaultTables) {info : ℕ × ℕ × ℕ}
    → get_vault_chaining_info id db ≡ ok info
    → (row : VaultRow) × (lookup id db.vaults ≡ some row) × (row.last_tx ≡ info.2)
unfolding get_vault_chaining_info
info-last id db run = ground arith

insert_vault_tx_raw-volume :
    (v : VaultTx) (id : ℕ) (place : Place) (raw_tx : Transaction) (prev : ℕ) (unit_volume : ℤ)
    (prev_tx : ℕ) (db : VaultTables) {result : ℤ × VaultTables}
    → prev < 2 ^ 63
    → insert_vault_tx_raw v id place raw_tx prev unit_volume prev_tx db ≡ ok result
    → IsSigned 64 result.0
unfolding insert_vault_tx_raw ◌-ℤ◌
insert_vault_tx_raw-volume v id place raw_tx prev unit_volume prev_tx db fits run = ground arith

-- What a way of chaining hands on to the insertion fits.
abbrev Fits : ℕ → ℕ × ℕ × ℕ × VaultTables → Type 0
Fits cur (custody, prev_custody, prev_tx, _) =
    (custody ≡ cur) × ((cur < 2 ^ 63 → prev_custody < 2 ^ 63) × (prev_tx < 2 ^ 256))

-- A vault that was just created has a hash for its last transaction.
created-last :
    (id custody : ℕ) (v : VaultTx) (db : VaultTables) (row : VaultRow)
    → v.txid < 2 ^ 256
    → IsReadable db
    → lookup id (insert v.txid (Store.vault_row v v.output custody) db.vaults) ≡ some row
    → row.last_tx < 2 ^ 256
created-last id custody v db row fits good found =
    elim (lookup-insert_cases id v.txid (Store.vault_row v v.output custody) db.vaults found) [
      | inl (_, same) ↦ subst (λ (w : VaultRow). w.last_tx < 2 ^ 256) same fits
      | inr (_, there) ↦ (good.vaults id row there).last_tx
    ]

chain_vault-Fits :
    (opens : Bool) (id : ℕ) (v : VaultTx) (raw_tx : Transaction) (db : VaultTables) (cur : ℕ)
    {result : ℕ × ℕ × ℕ × VaultTables}
    → v.txid < 2 ^ 256
    → IsReadable db
    → assume_custody_value v raw_tx ≡ ok cur
    → chain_vault opens id v raw_tx db ≡ ok result
    → Fits cur result
unfolding chain_vault
chain_vault-Fits true id v raw_tx db cur fits good held run =
    let (created, made, h1) =
      >>=-eq-ok (create_vault v raw_tx db)
        (λ c. get_vault_chaining_info id c.1 >>= (λ i. ok (c.0, c.0, i.2, c.1))) run in
    let (info, got, h2) =
      >>=-eq-ok (get_vault_chaining_info id created.1)
        (λ i. ok (created.0, created.0, i.2, created.1)) h1 in
    let (custody, held', gone, same) = create_vault-adds v raw_tx db made in
    let (row, found, last) = info-last id created.1 got in
    let cur_same : created.0 ≡ cur = sym (ap (λ c. c.0) same) ∙ ok-injective (sym held' ∙ held) in
    let fits_last : info.2 < 2 ^ 256 =
      subst (λ n. n < 2 ^ 256) last
        (created-last id custody v db row fits good
          (subst (λ (c : ℕ × VaultTables). lookup id c.1.vaults ≡ some row) (sym same) found)) in
    subst (Fits cur) (ok-injective h2)
      (cur_same, ((λ small. subst (λ n. n < 2 ^ 63) (sym cur_same) small), fits_last))
chain_vault-Fits false id v raw_tx db cur fits good held run =
    let (info, got, h1) =
      >>=-eq-ok (get_vault_chaining_info id db)
        (λ i. update_vault id v raw_tx db >>= (λ c. ok (c.0, i.0, i.2, c.1))) run in
    let (updated, ran, h2) =
      >>=-eq-ok (update_vault id v raw_tx db) (λ c. ok (c.0, info.0, info.2, c.1)) h1 in
    let (row, found, last) = info-last id db got in
    let (row', found', prev) = chaining_info-row id db got in
    let (custody, held', made) = update_vault-writes id v raw_tx db row found ran in
    subst (Fits cur) (ok-injective h2) (
      sym (ap (λ c. c.0) made) ∙ ok-injective (sym held' ∙ held),
      (
        (λ small. subst (λ n. n < 2 ^ 63) prev (good.vaults id row' found').custody),
        subst (λ n. n < 2 ^ 256) last (good.vaults id row found).last_tx,
      ),
    )

pub stored-IsTyped :
    (v : VaultTx) (place : Place) (raw_tx : Transaction) (db db' : VaultTables) (m : VaultTxMeta)
    → IsTypedTx v
    → IsTypedPlace place
    → IsReadable db
    → store_vault_tx v place raw_tx db ≡ ok (m, db')
    → IsTyped m
unfolding store_vault_tx find_parent_vault
stored-IsTyped v place raw_tx db db' m typed placed good run =
    let (id, b, unit_volume, d, found, chain, volume, ran, same) =
      stages-eq-ok (find_parent_vault v raw_tx db)
        (λ id. chain_vault (is_open v.action) id v raw_tx db) (λ id b. get_unit_volume v raw_tx b.3)
        (λ id b unit_volume. insert_vault_tx_raw v id place raw_tx b.1 unit_volume b.2 b.3)
        (λ id b unit_volume d. (Store.meta_row v id place unit_volume b.2 b.0 d.0, d.1)) run in
    let (cur, held, _, _) =
      Store.insert_vault_tx_raw-adds v id place raw_tx b.1 unit_volume b.2 b.3 ran in
    let small : cur < 2 ^ 63 =
      insert_vault_tx_raw-fits v id place raw_tx b.1 unit_volume b.2 b.3 cur held ran in
    let (now, bounds) =
      chain_vault-Fits (is_open v.action) id v raw_tx db cur typed.txid good held chain in
    subst (λ (r : VaultTxMeta × VaultTables). IsTyped r.0) same
      (record {
        vault_id = parent_vault-fits (is_open v.action) v raw_tx db typed.txid good found;
        txid = typed.txid;
        output = typed.output;
        balance = typed.balance;
        oracle_price = typed.oracle_price;
        oracle_timestamp = typed.oracle_timestamp;
        liquidation_price = typed.liquidation_price;
        liquidation_hash = typed.liquidation_hash;
        block_hash = placed.block_hash;
        block_pos = placed.block_pos;
        height = placed.height;
        btc_custody = subst (λ n. n < 2 ^ 63) (sym now) small;
        unit_volume = get_unit_volume-IsSigned v raw_tx b.3 volume;
        btc_volume =
            insert_vault_tx_raw-volume v id place raw_tx b.1 unit_volume b.2 b.3 (bounds.0 small)
              ran;
        prev_tx = bounds.1;
      })

extended-IsReadable :
    (v : VaultTx) (output : ℕ) (db : VaultTables) (m : VaultTxMeta)
    → v.txid < 2 ^ 256
    → IsTyped m
    → IsReadable db
    → IsReadable (extended db m.vault_id (Store.vault_row v output m.btc_custody) v.txid m)
extended-IsReadable v output db m fits typed good = record {
  vaults = λ id row found.
      elim (lookup-insert_cases id m.vault_id (Store.vault_row v output m.btc_custody) db.vaults
        found) [
          | inl (_, same) ↦
              subst IsTypedVault same (record { custody = typed.btc_custody; last_tx = fits })
          | inr (_, there) ↦ good.vaults id row there
        ];
  transactions = λ txid row found. elim (lookup-insert_cases txid v.txid m db.transactions found) [
    | inl (_, same) ↦ subst IsTyped same typed
    | inr (_, there) ↦ good.transactions txid row there
  ];
}

module _ ⦃g : RowGet⦄ ⦃h : HashBytes⦄ ⦃l : Lowercase⦄ where
  -- When a vault transaction is stored whose fields are of their types, in consistent tables whose
  -- rows are so, the rows are so afterwards, and the row that is written for it is read back as the
  -- record that the method returns, with every custody and volume inside its column.
  pub store_vault_tx-IsReadable :
      (v : VaultTx) (place : Place) (raw_tx : Transaction) (db db' : VaultTables) (m : VaultTxMeta)
      (tx_bytes : List ℕ)
      → IsTypedTx v
      → IsTypedPlace place
      → IsConsistent db
      → IsReadable db
      → store_vault_tx v place raw_tx db ≡ ok (m, db')
      → IsReadable db' × (load_vault_meta (vault_row m tx_bytes) ≡ Outcome.ok m)
  store_vault_tx-IsReadable v place raw_tx db db' m tx_bytes typed placed c good run =
      let fits = stored-IsTyped v place raw_tx db db' m typed placed good run in
      let stored = store_vault_tx-IsStored v place raw_tx db db' m c run in
      (
        subst IsReadable stored.tables
            (extended-IsReadable v stored.output db m typed.txid fits good),
        load_vault_meta-vault_row m tx_bytes fits,
      )

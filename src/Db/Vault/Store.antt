-- ===== src/Db/Vault/Store.antt =====
-- What the statements of `store_vault_tx` do when they succeed
-- (vault-indexer/src/db/vault/basic.rs).
pub mod Consistent
use mutinynet_indexer.Common.{
  ℕ, ◌≡◌, refl, sym, ap, ◌∙◌, Bool, not, true, false, Option, none, some, inl, inr, List, [], ◌∷◌,
  Option-cases, if◌then◌else◌,
}
use mutinynet_indexer.Common.Int.{ℤ, pos, ◌-ℤ◌}
use mutinynet_indexer.Common.Dict.{Dict, lookup, insert, contains, contains-some}
use mutinynet_indexer.Vault.Bitcoin.{Transaction}
use mutinynet_indexer.Vault.Transaction.{VaultTx}
use mutinynet_indexer.Vault.Custody.{assume_custody_value}
use mutinynet_indexer.Db.Error.{
  ok-injective, Error, Result, ok, err, >>=-eq-ok, ◌>>=◌, guard, ok_or, execute_query, panic,
}
use mutinynet_indexer.Db.Vault.{
  VaultRow, VaultTxMeta, VaultTables, Place, insert_row, create_vault, update_vault,
  insert_vault_tx_raw, is_open, fits_column, update_row,
}

guard-eq-ok :
    {B : Type 0} (t : Bool) (e : Error) (m : Result B) {b : B}
    → (guard t e >>= (λ _. m)) ≡ ok b
    → m ≡ ok b
guard-eq-ok true e m h = h
guard-eq-ok false e m h = cc

-- A successful run of two guarded stages.
stages-eq-ok :
    {A B C : Type 0} (t : Bool) (e : Error) (m : Result A) (p : A → Bool) (e' : Error)
    (n : A → Result B) (f : A → B → C) {c : C}
    → (guard t e >>= (λ _. m >>= (λ a. guard (p a) e' >>= (λ _. n a >>= (λ b. ok (f a b)))))) ≡ ok c
    → (a : A) × (b : B) × (m ≡ ok a) × (n a ≡ ok b) × (f a b ≡ c)
stages-eq-ok t e m p e' n f h =
    let (a, ran, h1) =
      >>=-eq-ok m (λ a. guard (p a) e' >>= (λ _. n a >>= (λ b. ok (f a b))))
        (guard-eq-ok t e _ h) in
    let (b, ran', h2) = >>=-eq-ok (n a) (λ b. ok (f a b)) (guard-eq-ok (p a) e' _ h1) in
    (a, b, ran, ran', cc)

if-eq-ok :
    {B : Type 0} (t : Bool) (e : Error) (x : B) {b : B}
    → (if t then err e else ok x) ≡ ok b
    → (t ≡ false) × (x ≡ b)
if-eq-ok true e x h = cc
if-eq-ok false e x h = (refl, cc)

pub insert_row-eq-ok :
    {V : Type 0} (k : ℕ) (v : V) (d : Dict V) {d' : Dict V}
    → insert_row k v d ≡ ok d'
    → (lookup k d ≡ none) × (insert k v d ≡ d')
unfolding insert_row
insert_row-eq-ok k v d h =
    let (off, same) = if-eq-ok (contains k d) execute_query (insert k v d) h in
    elim (Option-cases (lookup k d)) [
      | inl gone ↦ (gone, same)
      | inr (w, found) ↦ absurd (let there = contains-some k d found in cc)
    ]

-- The row of a vault after a transaction.
abbrev pub vault_row : VaultTx → ℕ → ℕ → VaultRow
vault_row v output custody = record {
  output = output;
  balance = v.balance;
  oracle_price = v.oracle_price;
  oracle_timestamp = v.oracle_timestamp;
  liquidation_price = v.liquidation_price;
  liquidation_hash = v.liquidation_hash;
  custody = custody;
  last_tx = v.txid;
}

pub create_vault-adds :
    (v : VaultTx) (raw_tx : Transaction) (db : VaultTables) {result : ℕ × VaultTables}
    → create_vault v raw_tx db ≡ ok result
    → (custody : ℕ) × (assume_custody_value v raw_tx ≡ ok custody)
      × (lookup v.txid db.vaults ≡ none)
      × ((custody, record db { vaults = insert v.txid (vault_row v v.output custody) db.vaults })
          ≡ result)
unfolding create_vault
create_vault-adds v raw_tx db h =
    let (amount, vaults, held, ran, last) =
      stages-eq-ok (is_open v.action) panic (assume_custody_value v raw_tx) fits_column
        execute_query (λ amount. insert_row v.txid (vault_row v v.output amount) db.vaults)
        (λ amount vaults. (amount, record db { vaults = vaults })) h in
    let (gone, same) = insert_row-eq-ok _ _ _ ran in
    (amount, held, gone, ap (λ d. (amount, record db { vaults = d })) same ∙ last)

update_row-some :
    {V : Type 0} (key : ℕ) (f : V → V) (table : Dict V) {row : V}
    → lookup key table ≡ some row
    → update_row key f table ≡ insert key (f row) table
unfolding update_row insert
update_row-some key f table found = rw (update_row, found) refl

pub update_vault-writes :
    (id : ℕ) (v : VaultTx) (raw_tx : Transaction) (db : VaultTables) (old : VaultRow)
    {result : ℕ × VaultTables}
    → lookup id db.vaults ≡ some old
    → update_vault id v raw_tx db ≡ ok result
    → (custody : ℕ) × (assume_custody_value v raw_tx ≡ ok custody)
      × ((custody, record db { vaults = insert id (vault_row v old.output custody) db.vaults })
          ≡ result)
unfolding update_vault
update_vault-writes id v raw_tx db old found h =
    let write : ℕ → VaultRow → VaultRow = λ custody row. vault_row v row.output custody in
    let (amount, vaults, held, ran, last) =
      stages-eq-ok (not (is_open v.action)) panic (assume_custody_value v raw_tx) fits_column
        execute_query (λ amount. ok (update_row id (write amount) db.vaults))
        (λ amount vaults. (amount, record db { vaults = vaults })) h in
    let written : insert id (vault_row v old.output amount) db.vaults ≡ vaults =
      sym (update_row-some id (write amount) db.vaults found) ∙ ok-injective ran in
    (amount, held, ap (λ d. (amount, record db { vaults = d })) written ∙ last)

-- The volume of a transaction, from the custody before it and after it.
abbrev pub volume_from : Bool → ℕ → ℕ → ℤ
volume_from opens prev cur = if opens then pos cur else pos cur -ℤ pos prev

-- The row of a vault transaction.
abbrev pub meta_row : VaultTx → ℕ → Place → ℤ → ℕ → ℕ → ℤ → VaultTxMeta
meta_row v id place unit_volume prev_tx custody btc_volume = record {
  vault_id = id;
  vault_tx = v;
  block_hash = place.block_hash;
  block_pos = place.block_pos;
  height = place.height;
  btc_custody = custody;
  unit_volume = unit_volume;
  btc_volume = btc_volume;
  prev_tx = prev_tx;
}

pub insert_vault_tx_raw-adds :
    (v : VaultTx) (id : ℕ) (place : Place) (raw_tx : Transaction) (prev : ℕ) (unit_volume : ℤ)
    (prev_tx : ℕ) (db : VaultTables) {result : ℤ × VaultTables}
    → insert_vault_tx_raw v id place raw_tx prev unit_volume prev_tx db ≡ ok result
    → (custody : ℕ) × (assume_custody_value v raw_tx ≡ ok custody)
      × (lookup v.txid db.transactions ≡ none)
      × ((
        volume_from (is_open v.action) prev custody,
        record db {
          transactions =
              insert v.txid
                (meta_row v id place unit_volume prev_tx custody
                  (volume_from (is_open v.action) prev custody))
                db.transactions;
        },
      )
          ≡ result)
unfolding insert_vault_tx_raw
insert_vault_tx_raw-adds v id place raw_tx prev unit_volume prev_tx db h =
    let volume : ℕ → ℤ = volume_from (is_open v.action) prev in
    let (amount, rows, held, ran, last) =
      stages-eq-ok true panic (assume_custody_value v raw_tx) fits_column execute_query
        (λ amount.
          insert_row v.txid (meta_row v id place unit_volume prev_tx amount (volume amount))
            db.transactions)
        (λ amount rows. (volume amount, record db { transactions = rows })) h in
    let (gone, same) = insert_row-eq-ok _ _ _ ran in
    (amount, held, gone, ap (λ d. (volume amount, record db { transactions = d })) same ∙ last)

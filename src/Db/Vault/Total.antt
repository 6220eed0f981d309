-- ===== src/Db/Vault/Total.antt =====
-- The methods on vault transactions return: no assertion of theirs fails
-- (vault-indexer/src/db/vault/basic.rs).
use mutinynet_indexer.Common.{
  ℕ, ◌≡◌, refl, sym, ap, ◌∙◌, Bool, true, false, not, Option, none, some, get_elem?, inl, inr,
  Bool-cases,
}
use mutinynet_indexer.Common.Int.{ℤ, pos}
use mutinynet_indexer.Common.Dict.{Dict, lookup, contains}
use mutinynet_indexer.Vault.Action
use mutinynet_indexer.Vault.Action.{VaultAction, opening, deposit, withdraw, borrow, repay}
use mutinynet_indexer.Vault.Bitcoin.{Transaction}
use mutinynet_indexer.Vault.Custody.{
  assume_custody_value, assume_parent_unit_tx, connector_input_pos,
}
use mutinynet_indexer.Vault.Transaction.{VaultTx}
use mutinynet_indexer.Db.Error.{
  Error, Result, ok, err, vault_tx_no_inputs, unknown_vault_tx, unknown_vault_id, unknown_unit_tx,
  execute_query, panic, assume_btc_volume, assume_unit_tx, ok_or, guard, ◌>>=◌,
}
use mutinynet_indexer.Db.Vault.{
  Place, VaultTables, insert_row, store_unit_tx, parent_vault, find_parent_vault, find_vault_by_tx,
  is_open, create_vault, update_vault, get_vault_chaining_info, get_unit_volume, load_unit_tx,
  with_sign, insert_vault_tx_raw, chain_vault, store_vault_tx, fits_column,
}

-- The method does not panic.
abbrev pub Returns {ℓ} : {A : Type ℓ} → Result A → Type 0
Returns (err panic) = ⊥
Returns (err _) = Unit {0}
Returns (ok _) = Unit {0}

>>=-Returns :
    {A B : Type 0} (m : Result A) (f : A → Result B)
    → Returns m
    → ((a : A) → Returns (f a))
    → Returns (m >>= f)
>>=-Returns (ok a) f h g = g a
>>=-Returns (err e) f h g = h

ok_or-Returns :
    {A : Type 0} (o : Option A) (e : Error) → Returns {A = A} (err e) → Returns (ok_or o e)
ok_or-Returns (some a) e h = tt
ok_or-Returns none e h = h

guard-Returns :
    (t : Bool) (e : Error) → (t ≡ false → Returns {A = Unit {0}} (err e)) → Returns (guard t e)
guard-Returns true e h = tt
guard-Returns false e h = h refl

insert_row-Returns : {V : Type 0} (k : ℕ) (v : V) (d : Dict V) → Returns (insert_row k v d)
unfolding insert_row
insert_row-Returns k v d = elim (Bool-cases (contains k d)) [
  | inl there ↦ rw there tt
  | inr gone ↦ rw gone tt
]

-- Whatever the action, the outputs and inputs that it needs are looked up.
custody_for :
    (action : VaultAction) (v : VaultTx) (tx : Transaction)
    → v.action ≡ action
    → Returns (assume_custody_value v tx)
unfolding assume_custody_value
custody_for opening v tx e = rw e (
    >>=-Returns _ _ (ok_or-Returns (get_elem? tx.output 2) (assume_btc_volume tx.txid) tt)
      (λ a. tt))
custody_for _ v tx e = rw e (
    >>=-Returns _ _ (ok_or-Returns (get_elem? tx.output 0) (assume_btc_volume tx.txid) tt)
      (λ a. tt))

assume_custody_value-Returns :
    (v : VaultTx) (tx : Transaction) → Returns (assume_custody_value v tx)
assume_custody_value-Returns v tx = custody_for v.action v tx refl

parent_for :
    (action : VaultAction) (v : VaultTx) (tx : Transaction)
    → v.action ≡ action
    → Returns (assume_parent_unit_tx v tx)
unfolding assume_parent_unit_tx
parent_for deposit v tx e = rw e tt
parent_for withdraw v tx e = rw e tt
parent_for _ v tx e = rw e (
    >>=-Returns _ _
      (ok_or-Returns (get_elem? tx.input connector_input_pos) (assume_unit_tx tx.txid) tt)
      (λ a. tt))

assume_parent_unit_tx-Returns :
    (v : VaultTx) (tx : Transaction) → Returns (assume_parent_unit_tx v tx)
assume_parent_unit_tx-Returns v tx = parent_for v.action v tx refl

parent_vault-Returns :
    (t : Bool) (v : VaultTx) (tx : Transaction) (db : VaultTables)
    → Returns (parent_vault t v tx db)
unfolding parent_vault
parent_vault-Returns true v tx db = tt
parent_vault-Returns false v tx db =
    >>=-Returns _ _ (ok_or-Returns (get_elem? tx.input 0) (vault_tx_no_inputs v.txid) tt)
      (λ i. ok_or-Returns (find_vault_by_tx i.previous_txid db) (unknown_vault_tx v.txid) tt)

get_vault_chaining_info-Returns :
    (id : ℕ) (db : VaultTables) → Returns (get_vault_chaining_info id db)
unfolding get_vault_chaining_info
get_vault_chaining_info-Returns id db =
    >>=-Returns _ _ (ok_or-Returns (lookup id db.vaults) (unknown_vault_id id) tt) (λ row. tt)

create_vault-Returns :
    (v : VaultTx) (tx : Transaction) (db : VaultTables)
    → is_open v.action ≡ true
    → Returns (create_vault v tx db)
unfolding create_vault
create_vault-Returns v tx db opens =
    >>=-Returns _ _ (guard-Returns (is_open v.action) panic (λ off. cc)) (λ _.
      >>=-Returns _ _ (assume_custody_value-Returns v tx) (λ custody.
        >>=-Returns _ _ (guard-Returns (fits_column custody) execute_query (λ _. tt))
          (λ _. >>=-Returns _ _ (insert_row-Returns v.txid _ db.vaults) (λ vaults. tt))))

update_vault-Returns :
    (id : ℕ) (v : VaultTx) (tx : Transaction) (db : VaultTables)
    → is_open v.action ≡ false
    → Returns (update_vault id v tx db)
unfolding update_vault
update_vault-Returns id v tx db continues =
    >>=-Returns _ _
      (guard-Returns (not (is_open v.action)) panic
        (λ off. let both : true ≡ false = sym (ap not continues) ∙ off in cc))
      (λ _. >>=-Returns _ _ (assume_custody_value-Returns v tx) (λ custody.
        >>=-Returns _ _ (guard-Returns (fits_column custody) execute_query (λ _. tt)) (λ _. tt)))

chain_vault-Returns :
    (t : Bool) (id : ℕ) (v : VaultTx) (tx : Transaction) (db : VaultTables)
    → is_open v.action ≡ t
    → Returns (chain_vault t id v tx db)
unfolding chain_vault
chain_vault-Returns true id v tx db opens =
    >>=-Returns _ _ (create_vault-Returns v tx db opens)
      (λ r. >>=-Returns _ _ (get_vault_chaining_info-Returns id r.1) (λ i. tt))
chain_vault-Returns false id v tx db continues =
    >>=-Returns _ _ (get_vault_chaining_info-Returns id db)
      (λ i. >>=-Returns _ _ (update_vault-Returns id v tx db continues) (λ r. tt))

unit_volume-Returns :
    (parent : Option ℕ) (v : VaultTx) (db : VaultTables)
    → Returns (elim parent [
      | none ↦ ok (pos 0)
      | some unit_txid ↦ (do
        unit_tx ← load_unit_tx unit_txid db
        ok (with_sign (Action.unit_volume_sign v.action) unit_tx.unit_amount))
    ])
unfolding load_unit_tx
unit_volume-Returns none v db = tt
unit_volume-Returns (some id) v db =
    >>=-Returns _ _ (ok_or-Returns (lookup id db.transactions_runes) (unknown_unit_tx id) tt)
      (λ unit_tx. tt)

get_unit_volume-Returns :
    (v : VaultTx) (tx : Transaction) (db : VaultTables) → Returns (get_unit_volume v tx db)
unfolding get_unit_volume
get_unit_volume-Returns v tx db =
    >>=-Returns _ _ (assume_parent_unit_tx-Returns v tx) (λ parent. unit_volume-Returns parent v db)

insert_vault_tx_raw-Returns :
    (v : VaultTx) (id : ℕ) (place : Place) (tx : Transaction) (prev : ℕ) (volume : ℤ) (prev_tx : ℕ)
    (db : VaultTables)
    → Returns (insert_vault_tx_raw v id place tx prev volume prev_tx db)
unfolding insert_vault_tx_raw
insert_vault_tx_raw-Returns v id place tx prev volume prev_tx db =
    >>=-Returns _ _ (assume_custody_value-Returns v tx) (λ custody.
      >>=-Returns _ _ (guard-Returns (fits_column custody) execute_query (λ _. tt))
        (λ _. >>=-Returns _ _ (insert_row-Returns v.txid _ db.transactions) (λ rows. tt)))

-- No assertion fails when a vault transaction is stored, whatever the tables hold.
pub store_vault_tx-Returns :
    (v : VaultTx) (place : Place) (tx : Transaction) (db : VaultTables)
    → Returns (store_vault_tx v place tx db)
unfolding store_vault_tx find_parent_vault
store_vault_tx-Returns v place tx db =
    >>=-Returns _ _ (parent_vault-Returns (is_open v.action) v tx db) (λ id.
      >>=-Returns _ _ (chain_vault-Returns (is_open v.action) id v tx db refl) (λ b.
        >>=-Returns _ _ (get_unit_volume-Returns v tx b.3) (λ volume.
          >>=-Returns _ _ (insert_vault_tx_raw-Returns v id place tx b.1 volume b.2 b.3)
            (λ d. tt))))

pub store_unit_tx-Returns :
    (tx : Transaction) (amount : ℕ) (db : VaultTables) → Returns (store_unit_tx tx amount db)
unfolding store_unit_tx
store_unit_tx-Returns tx amount db =
    >>=-Returns _ _ (insert_row-Returns tx.txid _ db.transactions_runes) (λ runes. tt)

-- ===== src/Db/Vault/Invariant.antt =====
-- What holds of the vault tables together (vault-indexer/src/db/vault/basic.rs).
use mutinynet_indexer.Common.{
  ℕ, ◌≡◌, ◌≢◌, refl, sym, ◌∙◌, Bool, true, false, none, some, inl, inr, [], ◌∷◌, ◌==◌, ==_iff,
  arith, if◌then◌else◌,
}
use native.Mathlib.Decide.{ℕ_discrete}
use mutinynet_indexer.Common.Int.{ℤ, pos, ◌+ℤ◌, int_laws}
use mutinynet_indexer.Common.Dict.{
  Dict, lookup, insert, lookup-insert_cases, lookup-insert_self, lookup-insert_ne, absent-cons,
  insert-cons,
}
use mutinynet_indexer.Db.Vault.{VaultRow, VaultTxMeta, VaultTables}

-- The sum of the BTC volumes of the transactions of a vault.
unfoldable pub volume_of : ℕ → Dict VaultTxMeta → ℤ
volume_of id [] = pos 0
volume_of id ((_, row) ∷ rows) =
    let rest = volume_of id rows in if row.vault_id == id then row.btc_volume +ℤ rest else rest

-- No transaction belongs to the vault.
unfoldable pub IsUnused : ℕ → Dict VaultTxMeta → Type 0
IsUnused id [] = Unit {0}
IsUnused id ((_, row) ∷ rows) = (row.vault_id ≢ id) × IsUnused id rows

-- The last transaction of a vault is one of its own, and left it with its custody.
unfoldable pub IsLast : ℕ → VaultRow → Dict VaultTxMeta → Type 0
IsLast id row transactions =
    (m : VaultTxMeta) × (lookup row.last_tx transactions ≡ some m)
    × (m.vault_id ≡ id)
    × (m.btc_custody ≡ row.custody)

-- The custody of a vault is the sum of the volumes of its transactions, and every transaction
-- belongs to a vault that is there.
pub record IsConsistent (db : VaultTables) : Type 0 where
  pub balanced :
      (id : ℕ) (row : VaultRow)
      → lookup id db.vaults ≡ some row
      → volume_of id db.transactions ≡ pos row.custody
  pub unused : (id : ℕ) → lookup id db.vaults ≡ none → IsUnused id db.transactions
  pub last :
      (id : ℕ) (row : VaultRow) → lookup id db.vaults ≡ some row → IsLast id row db.transactions

pub volume_of-unused :
    (id : ℕ) (rows : Dict VaultTxMeta) → IsUnused id rows → volume_of id rows ≡ pos 0
unfolding volume_of IsUnused
volume_of-unused id [] h = refl
volume_of-unused id ((_, row) ∷ rows) (other, h) = ground (arith, volume_of-unused id rows h)

add_if :
    (t : Bool) (v x w : ℤ) → (if t then v +ℤ (x +ℤ w) else x +ℤ w) ≡ (if t then v +ℤ x else x) +ℤ w
add_if true v x w = grind int_laws
add_if false v x w = refl

-- A new transaction adds its volume to its own vault, and to no other.
volume_of-insert :
    (id key : ℕ) (m : VaultTxMeta) (rows : Dict VaultTxMeta)
    → lookup key rows ≡ none
    → m.vault_id ≡ id
    → volume_of id (insert key m rows) ≡ volume_of id rows +ℤ m.btc_volume
unfolding volume_of insert lookup
volume_of-insert id key m [] h own = rw ((==_iff m.vault_id id).1 own) (grind int_laws)
volume_of-insert id key m ((k, row) ∷ rows) h own =
    let (off, gone) = absent-cons key k row rows h in
    rw (insert-cons key k m row rows off, volume_of-insert id key m rows gone own)
      (add_if (row.vault_id == id) row.btc_volume (volume_of id rows) m.btc_volume)

volume_of-insert_ne :
    (id key : ℕ) (m : VaultTxMeta) (rows : Dict VaultTxMeta)
    → lookup key rows ≡ none
    → m.vault_id ≢ id
    → volume_of id (insert key m rows) ≡ volume_of id rows
unfolding volume_of insert lookup
volume_of-insert_ne id key m [] h other = ground arith
volume_of-insert_ne id key m ((k, row) ∷ rows) h other =
    ground (arith, volume_of-insert_ne id key m rows)

IsUnused-if :
    (t : Bool) (id : ℕ) (xs ys : Dict VaultTxMeta)
    → IsUnused id xs
    → IsUnused id ys
    → IsUnused id (if t then xs else ys)
IsUnused-if true id xs ys hx hy = hx
IsUnused-if false id xs ys hx hy = hy

IsUnused-insert :
    (id key : ℕ) (m : VaultTxMeta) (rows : Dict VaultTxMeta)
    → m.vault_id ≢ id
    → IsUnused id rows
    → IsUnused id (insert key m rows)
unfolding IsUnused insert
IsUnused-insert id key m [] other h = (other, tt)
IsUnused-insert id key m ((k, row) ∷ rows) other (h, hs) =
    IsUnused-if (k == key) id ((key, m) ∷ rows) ((k, row) ∷ insert key m rows) (other, hs)
      (h, IsUnused-insert id key m rows other hs)

-- The tables with a transaction added and the row of its vault written.
abbrev pub extended : VaultTables → ℕ → VaultRow → ℕ → VaultTxMeta → VaultTables
extended db id row key m = record db {
  vaults = insert id row db.vaults;
  transactions = insert key m db.transactions;
}

-- They stay consistent when the transaction is new, becomes the last one of its vault, and brings
-- the sum of the volumes to the custody that is written.
pub extended-IsConsistent :
    (db : VaultTables) (id : ℕ) (row : VaultRow) (key : ℕ) (m : VaultTxMeta)
    → IsConsistent db
    → lookup key db.transactions ≡ none
    → m.vault_id ≡ id
    → row.last_tx ≡ key
    → m.btc_custody ≡ row.custody
    → volume_of id db.transactions +ℤ m.btc_volume ≡ pos row.custody
    → IsConsistent (extended db id row key m)
unfolding IsLast
extended-IsConsistent db id row key m c fresh own is_last custody sum = record {
  balanced = λ j r found. elim (lookup-insert_cases j id row db.vaults found) [
    | inl (e, same) ↦
        rw (sym same, sym e) (volume_of-insert id key m db.transactions fresh own ∙ sum)
    | inr (ne, before) ↦
        (volume_of-insert_ne j key m db.transactions fresh (λ q. ne (sym own ∙ q))
          ∙ c.balanced j r before)
  ];
  unused = λ j gone. elim (ℕ_discrete id j) [
    | yes e ↦
        (let there : lookup id (insert id row db.vaults) ≡ some row =
            lookup-insert_self id row db.vaults in
          cc)
    | no ne ↦
        (let before : lookup j db.vaults ≡ none =
            sym (lookup-insert_ne j id row db.vaults ne) ∙ gone in
          IsUnused-insert j key m db.transactions (λ q. ne (sym own ∙ q)) (c.unused j before))
  ];
  last = λ j r found. elim (lookup-insert_cases j id row db.vaults found) [
    | inl (e, same) ↦
        rw (sym same, sym e, is_last) (m, lookup-insert_self key m db.transactions, own, custody)
    | inr (ne, before) ↦
        (let (w, there, mine, amount) = c.last j r before in
          let apart : key ≢ r.last_tx = λ q. cc in
          (w, lookup-insert_ne r.last_tx key m db.transactions apart ∙ there, mine, amount))
  ];
}

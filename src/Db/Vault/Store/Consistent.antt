-- ===== src/Db/Vault/Store/Consistent.antt =====
-- `store_vault_tx` (vault-indexer/src/db/vault/basic.rs) keeps the tables consistent.
use mathlib.Core.Path.{subst}
use mutinynet_indexer.Common.{ℕ, ◌≡◌, refl, sym, ap, ◌∙◌, Bool, true, false, Option, none, some}
use mutinynet_indexer.Common.Int.{ℤ, pos, ◌+ℤ◌, int_laws}
use mutinynet_indexer.Common.Dict.{lookup, insert}
use mutinynet_indexer.Vault.Bitcoin.{Transaction}
use mutinynet_indexer.Vault.Transaction.{VaultTx}
use mutinynet_indexer.Vault.Custody.{assume_custody_value}
use mutinynet_indexer.Db.Error.{ok-injective, Result, ok, >>=-eq-ok, ◌>>=◌, ok_or, unknown_vault_id}
use mutinynet_indexer.Db.Vault.{
  VaultRow, VaultTxMeta, VaultTables, Place, is_open, parent_vault, find_parent_vault, chain_vault,
  create_vault, update_vault, get_vault_chaining_info, get_unit_volume, insert_vault_tx_raw,
  store_vault_tx,
}
use mutinynet_indexer.Db.Vault.Invariant.{
  IsConsistent, volume_of, volume_of-unused, extended, extended-IsConsistent,
}
use mutinynet_indexer.Db.Vault.Store.{
  create_vault-adds, update_vault-writes, insert_vault_tx_raw-adds, vault_row, volume_from,
  meta_row,
}

-- What the tables are after a vault transaction: its row has it, and is new, its vault has its custody and has
-- it as the last transaction, and its volume brings the sum of the volumes to the custody.
pub record IsStored (v : VaultTx) (db : VaultTables) (m : VaultTxMeta) (db' : VaultTables)
    : Type 0 where
  pub output : ℕ
  pub own : m.vault_tx ≡ v
  pub fresh : lookup v.txid db.transactions ≡ none
  pub sum : volume_of m.vault_id db.transactions +ℤ m.btc_volume ≡ pos m.btc_custody
  pub tables : extended db m.vault_id (vault_row v output m.btc_custody) v.txid m ≡ db'

pub stages-eq-ok :
    {A B C D E : Type 0} (m₁ : Result A) (m₂ : A → Result B) (m₃ : A → B → Result C)
    (m₄ : A → B → C → Result D) (f : A → B → C → D → E) {r : E}
    → (m₁ >>= (λ a. m₂ a >>= (λ b. m₃ a b >>= (λ c. m₄ a b c >>= (λ d. ok (f a b c d)))))) ≡ ok r
    → (a : A) × (b : B) × (c : C) × (d : D) × (m₁ ≡ ok a)
      × (m₂ a ≡ ok b)
      × (m₃ a b ≡ ok c)
      × (m₄ a b c ≡ ok d)
      × (f a b c d ≡ r)
stages-eq-ok m₁ m₂ m₃ m₄ f h =
    let (a, ha, h1) =
      >>=-eq-ok m₁ (λ a. m₂ a >>= (λ b. m₃ a b >>= (λ c. m₄ a b c >>= (λ d. ok (f a b c d))))) h in
    let (b, hb, h2) =
      >>=-eq-ok (m₂ a) (λ b. m₃ a b >>= (λ c. m₄ a b c >>= (λ d. ok (f a b c d)))) h1 in
    let (c, hc, h3) = >>=-eq-ok (m₃ a b) (λ c. m₄ a b c >>= (λ d. ok (f a b c d))) h2 in
    let (d, hd, h4) = >>=-eq-ok (m₄ a b c) (λ d. ok (f a b c d)) h3 in
    (a, b, c, d, ha, hb, hc, hd, ok-injective h4)

-- The two ways to chain a transaction to its vault.
chain_vault-opens :
    (id : ℕ) (v : VaultTx) (raw_tx : Transaction) (db : VaultTables)
    {result : ℕ × ℕ × ℕ × VaultTables}
    → chain_vault true id v raw_tx db ≡ ok result
    → (custody : ℕ) × (prev_tx : ℕ) × (assume_custody_value v raw_tx ≡ ok custody)
      × (lookup v.txid db.vaults ≡ none)
      × ((
        custody,
        custody,
        prev_tx,
        record db { vaults = insert v.txid (vault_row v v.output custody) db.vaults },
      )
          ≡ result)
unfolding chain_vault
chain_vault-opens id v raw_tx db h =
    let (created, ran, h1) =
      >>=-eq-ok (create_vault v raw_tx db)
        (λ c. get_vault_chaining_info id c.1 >>= (λ i. ok (c.0, c.0, i.2, c.1))) h in
    let (info, got, h2) =
      >>=-eq-ok (get_vault_chaining_info id created.1)
        (λ i. ok (created.0, created.0, i.2, created.1)) h1 in
    let (custody, held, gone, made) = create_vault-adds v raw_tx db ran in
    (custody, info.2, held, gone, ap (λ c. (c.0, c.0, info.2, c.1)) made ∙ ok-injective h2)

pub chaining_info-row :
    (id : ℕ) (db : VaultTables) {info : ℕ × ℕ × ℕ}
    → get_vault_chaining_info id db ≡ ok info
    → (row : VaultRow) × (lookup id db.vaults ≡ some row) × (row.custody ≡ info.0)
unfolding get_vault_chaining_info
chaining_info-row id db h =
    let (row, found, same) =
      >>=-eq-ok (ok_or (lookup id db.vaults) (unknown_vault_id id))
        (λ row. ok (row.custody, row.balance, row.last_tx)) h in
    (row, ok_or-some (lookup id db.vaults) found, ap (λ i. i.0) (ok-injective same))
  where
    ok_or-some :
        (o : Option VaultRow) {a : VaultRow} → ok_or o (unknown_vault_id id) ≡ ok a → o ≡ some a
    ok_or-some none q = cc
    ok_or-some (some b) q = ap some (ok-injective q)

chain_vault-continues :
    (id : ℕ) (v : VaultTx) (raw_tx : Transaction) (db : VaultTables)
    {result : ℕ × ℕ × ℕ × VaultTables}
    → chain_vault false id v raw_tx db ≡ ok result
    → (row : VaultRow) × (custody : ℕ) × (prev_tx : ℕ) × (lookup id db.vaults ≡ some row)
      × (assume_custody_value v raw_tx ≡ ok custody)
      × ((
        custody,
        row.custody,
        prev_tx,
        record db { vaults = insert id (vault_row v row.output custody) db.vaults },
      )
          ≡ result)
unfolding chain_vault
chain_vault-continues id v raw_tx db h =
    let (info, got, h1) =
      >>=-eq-ok (get_vault_chaining_info id db)
        (λ i. update_vault id v raw_tx db >>= (λ c. ok (c.0, i.0, i.2, c.1))) h in
    let (updated, ran, h2) =
      >>=-eq-ok (update_vault id v raw_tx db) (λ c. ok (c.0, info.0, info.2, c.1)) h1 in
    let (row, found, prev) = chaining_info-row id db got in
    let (custody, held, made) = update_vault-writes id v raw_tx db row found ran in
    let db1 : VaultTables = record db {
      vaults = insert id (vault_row v row.output custody) db.vaults;
    } in
    (
      row,
      custody,
      info.2,
      found,
      held,
      ap (λ p. (custody, p, info.2, db1)) prev
          ∙ ap (λ c. (c.0, info.0, info.2, c.1)) made
          ∙ ok-injective h2,
    )

open_sum : (x : ℤ) (cur prev : ℕ) → x ≡ pos 0 → x +ℤ volume_from true prev cur ≡ pos cur
open_sum x cur prev h = grind (int_laws, h)

continue_sum : (x : ℤ) (cur prev : ℕ) → x ≡ pos prev → x +ℤ volume_from false prev cur ≡ pos cur
continue_sum x cur prev h = grind (int_laws, h)

-- The row of the transaction goes into the tables in which its vault is already written.
insert-IsStored :
    (v : VaultTx) (place : Place) (raw_tx : Transaction) (db : VaultTables)
    (id output cur prev prev_tx : ℕ) (unit_volume : ℤ) (d : ℤ × VaultTables)
    → assume_custody_value v raw_tx ≡ ok cur
    → volume_of id db.transactions +ℤ volume_from (is_open v.action) prev cur ≡ pos cur
    → insert_vault_tx_raw v id place raw_tx prev unit_volume prev_tx
        (record db { vaults = insert id (vault_row v output cur) db.vaults })
      ≡ ok d
    → IsStored v db (meta_row v id place unit_volume prev_tx cur d.0) d.1
insert-IsStored v place raw_tx db id output cur prev prev_tx unit_volume d held sum h =
    let (cur', held', gone, made) =
      insert_vault_tx_raw-adds v id place raw_tx prev unit_volume prev_tx
        (record db { vaults = insert id (vault_row v output cur) db.vaults }) h in
    let same : cur' ≡ cur = ok-injective (sym held' ∙ held) in
    subst (λ r. IsStored v db (meta_row v id place unit_volume prev_tx cur r.0) r.1)
      (sym (
          ap
            (λ w. (
              volume_from (is_open v.action) prev w,
              record db {
                vaults = insert id (vault_row v output cur) db.vaults;
                transactions =
                    insert v.txid
                      (meta_row v id place unit_volume prev_tx w
                        (volume_from (is_open v.action) prev w))
                      db.transactions;
              },
            ))
            same)
        ∙ made)
      (record { output = output; own = refl; fresh = gone; sum = sum; tables = refl })

-- The insertion that follows a way of chaining stores the transaction.
abbrev IsInserted :
    VaultTx
    → Place
    → Transaction
    → VaultTables
    → ℕ
    → ℤ
    → ℤ × VaultTables
    → ℕ × ℕ × ℕ × VaultTables
    → Type 0
IsInserted v place raw_tx db id unit_volume d b =
    insert_vault_tx_raw v id place raw_tx b.1 unit_volume b.2 b.3 ≡ ok d
    → IsStored v db (meta_row v id place unit_volume b.2 b.0 d.0) d.1

-- The stages of the method that follow the search for the vault.
chained-IsStored :
    (t : Bool) (v : VaultTx) (place : Place) (raw_tx : Transaction) (db : VaultTables) (id : ℕ)
    (b : ℕ × ℕ × ℕ × VaultTables) (unit_volume : ℤ) (d : ℤ × VaultTables)
    → IsConsistent db
    → is_open v.action ≡ t
    → parent_vault t v raw_tx db ≡ ok id
    → chain_vault t id v raw_tx db ≡ ok b
    → insert_vault_tx_raw v id place raw_tx b.1 unit_volume b.2 b.3 ≡ ok d
    → IsStored v db (meta_row v id place unit_volume b.2 b.0 d.0) d.1
unfolding parent_vault
chained-IsStored true v place raw_tx db id b unit_volume d c opens found chain ran =
    let (cur, prev_tx, held, gone, made) = chain_vault-opens id v raw_tx db chain in
    let own : v.txid ≡ id = ok-injective found in
    let sum : volume_of v.txid db.transactions +ℤ volume_from (is_open v.action) cur cur ≡ pos cur =
      subst (λ t. volume_of v.txid db.transactions +ℤ volume_from t cur cur ≡ pos cur) (sym opens)
        (open_sum _ cur cur (volume_of-unused v.txid db.transactions (c.unused v.txid gone))) in
    subst (λ i. IsInserted v place raw_tx db i unit_volume d b) own
      (subst (IsInserted v place raw_tx db v.txid unit_volume d) made
        (insert-IsStored v place raw_tx db v.txid v.output cur cur prev_tx unit_volume d held sum))
      ran
chained-IsStored false v place raw_tx db id b unit_volume d c opens found chain ran =
    let (row, cur, prev_tx, there, held, made) = chain_vault-continues id v raw_tx db chain in
    let sum : volume_of id db.transactions +ℤ volume_from (is_open v.action) row.custody cur
        ≡ pos cur =
      subst (λ t. volume_of id db.transactions +ℤ volume_from t row.custody cur ≡ pos cur)
        (sym opens) (continue_sum _ cur row.custody (c.balanced id row there)) in
    subst (IsInserted v place raw_tx db id unit_volume d) made
      (insert-IsStored v place raw_tx db id row.output cur row.custody prev_tx unit_volume d held
        sum)
      ran

-- A vault transaction that is stored in consistent tables was not there before. Its row is added,
-- the row of its vault gets its fields, its custody and its id as the last transaction, and the
-- volumes of the vault, with its own, add up to that custody.
pub store_vault_tx-IsStored :
    (v : VaultTx) (place : Place) (raw_tx : Transaction) (db db' : VaultTables) (m : VaultTxMeta)
    → IsConsistent db
    → store_vault_tx v place raw_tx db ≡ ok (m, db')
    → IsStored v db m db'
unfolding store_vault_tx find_parent_vault
store_vault_tx-IsStored v place raw_tx db db' m c h =
    let (id, b, unit_volume, d, found, chain, volume, ran, same) =
      stages-eq-ok (find_parent_vault v raw_tx db)
        (λ id. chain_vault (is_open v.action) id v raw_tx db) (λ id b. get_unit_volume v raw_tx b.3)
        (λ id b unit_volume. insert_vault_tx_raw v id place raw_tx b.1 unit_volume b.2 b.3)
        (λ id b unit_volume d. (meta_row v id place unit_volume b.2 b.0 d.0, d.1)) h in
    subst (λ r. IsStored v db r.0 r.1) same
      (chained-IsStored (is_open v.action) v place raw_tx db id b unit_volume d c refl found chain
        ran)

-- Storing a vault transaction keeps the tables consistent: the custody of every vault stays the sum
-- of the volumes of its transactions, its last transaction one of its own, and no transaction is
-- without a vault.
pub store_vault_tx-IsConsistent :
    (v : VaultTx) (place : Place) (raw_tx : Transaction) (db db' : VaultTables) (m : VaultTxMeta)
    → IsConsistent db
    → store_vault_tx v place raw_tx db ≡ ok (m, db')
    → IsConsistent db'
store_vault_tx-IsConsistent v place raw_tx db db' m c h =
    let s = store_vault_tx-IsStored v place raw_tx db db' m c h in
    subst IsConsistent s.tables (
      extended-IsConsistent db m.vault_id (vault_row v s.output m.btc_custody) v.txid m c s.fresh
        refl refl refl s.sum)

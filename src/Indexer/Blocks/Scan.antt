-- ===== src/Indexer/Blocks/Scan.antt =====
-- What the scan of a block does to the tables and to the event bus
-- (vault-indexer/src/indexer/mod.rs, `process_block`).
use mathlib.Core.Path.{subst}
use mathlib.Core.List.{append_assoc, append-nil, map-append}
use mutinynet_indexer.Common.{
  ℕ, suc, ◌≡◌, refl, sym, ap, ◌∙◌, Bool, true, false, none, some, List, [], ◌∷◌, ◌++◌, inl, inr,
  Option, Bool-cases, ◌≢◌,
}
use mutinynet_indexer.Common.Dict.{insert-fresh}
use mutinynet_indexer.Cache.Block.{BlockHeader, block_hash}
use mutinynet_indexer.Db.Error as Db
use mutinynet_indexer.Db.Error.{Error}
use mutinynet_indexer.Db.Vault.{
  VaultTables, VaultTxMeta, UnitTxMeta, Place, store_vault_tx, store_unit_tx, insert_row,
}
use mutinynet_indexer.Db.Vault.Invariant.{IsConsistent}
use mutinynet_indexer.Db.Vault.Store.{insert_row-eq-ok}
use mutinynet_indexer.Db.Vault.Store.Consistent.{
  store_vault_tx-IsStored, store_vault_tx-IsConsistent,
}
use mutinynet_indexer.Db.Vault.Total.{Returns, store_vault_tx-Returns, store_unit_tx-Returns}
use mutinynet_indexer.Indexer.{Indexer}
use mutinynet_indexer.Indexer.Blocks.{
  announce_vault_tx, announce_unit_tx, detect_vault_tx, detect_unit_tx, after_vault, process_tx,
  process_txs, process_block,
}
use mutinynet_indexer.Indexer.Error.{Result, ok, err, ok-injective, >>=-eq-ok}
use mutinynet_indexer.Indexer.Event.{Event, NewUnitTx, new_transaction, new_unit_transaction}
use mutinynet_indexer.P2p.{Block}
use mutinynet_indexer.Vault.Bitcoin.{Transaction, Script}
use mutinynet_indexer.Vault.Errors.{IsClassifiedTx, from_tx-IsClassified}
use mutinynet_indexer.Vault.Parse
use mutinynet_indexer.Vault.Runes
use mutinynet_indexer.Vault.Runes.{Ordinals, UnitTransaction}
use mutinynet_indexer.Vault.Transaction as Vault
use mutinynet_indexer.Indexer.Blocks.Rows.{
  rows_of, unit_txids_of, keys, IsScan, IsScan-nothing, IsScan-append, scanned,
}

module _ {H : Type 0} where
  -- The method returns, and scans.
  abbrev pub Scans : Indexer H → Result (Indexer H) → Type 0
  Scans s run =
      (db : VaultTables) × (events : List (Event H)) × (run ≡ ok (scanned db events s))
      × IsScan s.database.vaults db events

  abbrev Detects : Indexer H → Result (Bool × Indexer H) → Type 0
  Detects s run =
      (found : Bool) × (db : VaultTables) × (events : List (Event H)) × (run
        ≡ ok (found, scanned db events s))
      × IsScan s.database.vaults db events

  scanned-nothing : (s : Indexer H) → s ≡ scanned s.database.vaults [] s
  scanned-nothing s = ap (λ l. record s { events_bus = l }) (sym (append-nil s.events_bus))

  scanned-scanned :
      (db db' : VaultTables) (es fs : List (Event H)) (s : Indexer H)
      → scanned db' fs (scanned db es s) ≡ scanned db' (es ++ fs) s
  scanned-scanned db db' es fs s =
      ap (λ l. record s { database = record s.database { vaults = db' }; events_bus = l })
        (append_assoc s.events_bus es fs)

  -- Nothing happens.
  passes_by :
      (found : Bool) (s : Indexer H) → IsConsistent s.database.vaults → Detects s (ok (found, s))
  passes_by found s c = (
    found,
    s.database.vaults,
    [],
    ap (λ t. ok (found, t)) (scanned-nothing s),
    IsScan-nothing s.database.vaults c,
  )

  announce_vault_tx-Detects :
      (r : Db.Result (VaultTxMeta × VaultTables)) (s : Indexer H)
      → IsConsistent s.database.vaults
      → Returns r
      → ((m : VaultTxMeta) (db : VaultTables)
          → r ≡ ok (m, db)
          → IsScan {H = H} s.database.vaults db (new_transaction m ∷ []))
      → Detects s (announce_vault_tx r s)
  unfolding announce_vault_tx
  announce_vault_tx-Detects (ok (m, db)) s c h g =
      (true, db, new_transaction m ∷ [], refl, g m db refl)
  announce_vault_tx-Detects (err Db.panic) s c h g = absurd h
  announce_vault_tx-Detects (err _) s c h g = passes_by true s c

  announce_unit_tx-Detects :
      (utx : UnitTransaction) (place : Place) (r : Db.Result VaultTables) (s : Indexer H)
      → IsConsistent s.database.vaults
      → Returns r
      → ((new : NewUnitTx) (db : VaultTables)
          → r ≡ ok db
          → new.utx ≡ utx
          → IsScan {H = H} s.database.vaults db (new_unit_transaction new ∷ []))
      → Detects s (announce_unit_tx utx place r s)
  unfolding announce_unit_tx
  announce_unit_tx-Detects utx place (ok db) s c h g = (true, db, _, refl, g _ db refl refl)
  announce_unit_tx-Detects utx place (err Db.panic) s c h g = absurd h
  announce_unit_tx-Detects utx place (err _) s c h g = passes_by true s c

  -- The two detections.
  stored-IsScan :
      (v : Vault.VaultTx) (place : Place) (tx : Transaction) (db db' : VaultTables)
      (m : VaultTxMeta)
      → IsConsistent db
      → store_vault_tx v place tx db ≡ ok (m, db')
      → IsScan {H = H} db db' (new_transaction m ∷ [])
  unfolding rows_of unit_txids_of
  stored-IsScan v place tx db db' m c run =
      let stored = store_vault_tx-IsStored v place tx db db' m c run in
      record {
        consistent = store_vault_tx-IsConsistent v place tx db db' m c run;
        news = tt;
        rows =
            sym (ap (λ t. t.transactions) stored.tables)
            ∙ insert-fresh v.txid m db.transactions stored.fresh
            ∙ ap (λ k. db.transactions ++ ((k, m) ∷ [])) (sym (ap (λ w. w.txid) stored.own));
        units =
            sym (ap (λ t. keys t.transactions_runes) stored.tables)
            ∙ sym (append-nil (keys db.transactions_runes));
      }

  stored_unit-IsScan :
      (tx : Transaction) (new : NewUnitTx) (amount : ℕ) (db db' : VaultTables)
      → IsConsistent db
      → new.utx.txid ≡ tx.txid
      → store_unit_tx tx amount db ≡ ok db'
      → IsScan {H = H} db db' (new_unit_transaction new ∷ [])
  unfolding rows_of unit_txids_of store_unit_tx
  stored_unit-IsScan tx new amount db db' c own run =
      let row : UnitTxMeta = record { transaction = tx; unit_amount = amount } in
      let (runes, ran, last) =
        >>=-eq-ok (insert_row tx.txid row db.transactions_runes)
          (λ runes. ok (record db { transactions_runes = runes })) run in
      let (gone, grown) = insert_row-eq-ok tx.txid row db.transactions_runes ran in
      let same : record db { transactions_runes = runes } ≡ db' = ok-injective last in
      subst (λ t. IsScan {H = H} db t (new_unit_transaction new ∷ [])) same
        (record {
          consistent = record { balanced = c.balanced; unused = c.unused; last = c.last };
          news = tt;
          rows = sym (append-nil db.transactions);
          units =
              ap keys (sym grown ∙ insert-fresh tx.txid row db.transactions_runes gone)
              ∙ map-append (λ entry. entry.0) db.transactions_runes ((tx.txid, row) ∷ [])
              ∙ ap (λ k. keys db.transactions_runes ++ (k ∷ [])) (sym own);
        })

-- The parsers do not panic, and a UNIT transaction keeps the id of the transaction.
from_tx-Parses : ⦃c : Script⦄ (tx : Transaction) → Parse.from_tx tx ≢ Vault.panic
from_tx-Parses tx e = subst (IsClassifiedTx tx.output) e (from_tx-IsClassified tx)

abbrev IsOf : Transaction → Runes.Result UnitTransaction → Type 0
IsOf tx (Runes.ok utx) = utx.txid ≡ tx.txid
IsOf tx (Runes.err _) = Unit {0}

module _ ⦃o : Ordinals⦄ where
  deciphered-IsOf :
      (tx : Transaction) (d : Option Runes.Artifact)
      → o.decipher tx ≡ d
      → IsOf tx (Runes.from_tx tx)
  unfolding Runes.from_tx
  deciphered-IsOf tx none e = rw (IsOf, Runes.from_tx, e) tt
  deciphered-IsOf tx (some Runes.cenotaph) e = rw (IsOf, Runes.from_tx, e) tt
  deciphered-IsOf tx (some (Runes.runestone edicts)) e =
      elim (Bool-cases (Runes.sum_edicts edicts 0 false).1) [
        | inl met ↦ rw (IsOf, Runes.from_tx, e, met) refl
        | inr unmet ↦ rw (IsOf, Runes.from_tx, e, unmet) tt
      ]

module _ {H : Type 0} ⦃c : Script⦄ ⦃o : Ordinals⦄ where
  vault_parsed :
      (place : Place) (tx : Transaction) (s : Indexer H) (p : Vault.Result Vault.VaultTx)
      → IsConsistent s.database.vaults
      → Parse.from_tx tx ≡ p
      → Detects s (detect_vault_tx place tx s)
  unfolding detect_vault_tx
  vault_parsed place tx s Vault.panic k e = absurd (from_tx-Parses tx e)
  vault_parsed place tx s (Vault.err refusal) k e = rw (detect_vault_tx, e) (passes_by false s k)
  vault_parsed place tx s (Vault.ok v) k e =
      rw (detect_vault_tx, e)
        (announce_vault_tx-Detects (store_vault_tx v place tx s.database.vaults) s k
          (store_vault_tx-Returns v place tx s.database.vaults)
          (λ m db run. stored-IsScan v place tx s.database.vaults db m k run))

  unit_parsed :
      (place : Place) (tx : Transaction) (s : Indexer H) (p : Runes.Result UnitTransaction)
      → IsConsistent s.database.vaults
      → Runes.from_tx tx ≡ p
      → Detects s (detect_unit_tx place tx s)
  unfolding detect_unit_tx
  unit_parsed place tx s (Runes.err refusal) k e = rw (detect_unit_tx, e) (passes_by false s k)
  unit_parsed place tx s (Runes.ok utx) k e =
      let own : utx.txid ≡ tx.txid = subst (IsOf tx) e (deciphered-IsOf tx (o.decipher tx) refl) in
      rw (detect_unit_tx, e)
        (announce_unit_tx-Detects utx place (store_unit_tx tx utx.unit_amount s.database.vaults) s k
          (store_unit_tx-Returns tx utx.unit_amount s.database.vaults)
          (λ new db run same.
            stored_unit-IsScan tx new utx.unit_amount s.database.vaults db k
              (ap (λ u. u.txid) same ∙ own) run))

  process_tx-Scans :
      (place : Place) (tx : Transaction) (s : Indexer H)
      → IsConsistent s.database.vaults
      → Scans s (process_tx place tx s)
  unfolding process_tx after_vault
  process_tx-Scans place tx s k =
      let (found, db, es, run, scan) = vault_parsed place tx s (Parse.from_tx tx) k refl in
      after found db es run scan
    where
      after :
          (found : Bool) (db : VaultTables) (es : List (Event H))
          → detect_vault_tx place tx s ≡ ok (found, scanned db es s)
          → IsScan s.database.vaults db es
          → Scans s (process_tx place tx s)
      after true db es run scan = (db, es, rw run refl, scan)
      after false db es run scan =
          let (_, db', fs, run', scan') =
            unit_parsed place tx (scanned db es s) (Runes.from_tx tx) scan.consistent refl in
          (
            db',
            es ++ fs,
            rw (run, run') (ap ok (scanned-scanned db db' es fs s)),
            IsScan-append s.database.vaults db db' es fs scan scan',
          )

  process_txs-Scans :
      (hash height i : ℕ) (txs : List Transaction) (s : Indexer H)
      → IsConsistent s.database.vaults
      → Scans s (process_txs hash height i txs s)
  unfolding process_txs
  process_txs-Scans hash height i [] s k =
      (s.database.vaults, [], ap ok (scanned-nothing s), IsScan-nothing s.database.vaults k)
  process_txs-Scans hash height i (tx ∷ txs) s k =
      let place : Place = record { block_hash = hash; block_pos = i; height = height } in
      let (db, es, run, scan) = process_tx-Scans place tx s k in
      let (db', fs, run', scan') =
        process_txs-Scans hash height (suc i) txs (scanned db es s) scan.consistent in
      (
        db',
        es ++ fs,
        rw (run, run') (ap ok (scanned-scanned db db' es fs s)),
        IsScan-append s.database.vaults db db' es fs scan scan',
      )

  -- The scan of a block returns without an error, whatever its transactions are. It changes the
  -- tables of vaults and the event bus alone. Consistent tables stay consistent, and they grow by
  -- just what is broadcast: the new rows of vault transactions are those that the new events
  -- announce, in the same order, and the new UNIT transactions have the ids that are announced.
  pub process_block-Scans :
      ⦃b : BlockHeader H⦄ (block : Block H) (height : ℕ) (s : Indexer H)
      → IsConsistent s.database.vaults
      → Scans s (process_block block height s)
  unfolding process_block
  process_block-Scans block height s k =
      process_txs-Scans (block_hash block.header) height 0 block.txdata s k

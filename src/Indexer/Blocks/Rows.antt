-- ===== src/Indexer/Blocks/Rows.antt =====
-- What a list of events announces, and tables that have grown by it
-- (vault-indexer/src/indexer/mod.rs, `process_block`).
use mathlib.Core.List.{append_assoc, append-nil}
use mutinynet_indexer.Common.{ℕ, ◌≡◌, refl, sym, ap, ◌∙◌, List, [], ◌∷◌, ◌++◌, map}
use mutinynet_indexer.Common.Dict.{Dict}
use mutinynet_indexer.Db.Vault.{VaultTables, VaultTxMeta}
use mutinynet_indexer.Db.Vault.Invariant.{IsConsistent}
use mutinynet_indexer.Indexer.{Indexer}
use mutinynet_indexer.Indexer.Event.{Event, new_transaction, new_unit_transaction}

-- The rows that a list of events announces, and the ids of the UNIT transactions.
unfoldable pub rows_of : {H : Type 0} → List (Event H) → Dict VaultTxMeta
rows_of [] = []
rows_of (new_transaction meta ∷ events) = (meta.vault_tx.txid, meta) ∷ rows_of events
rows_of (_ ∷ events) = rows_of events

unfoldable pub unit_txids_of : {H : Type 0} → List (Event H) → List ℕ
unit_txids_of [] = []
unit_txids_of (new_unit_transaction new ∷ events) = new.utx.txid ∷ unit_txids_of events
unit_txids_of (_ ∷ events) = unit_txids_of events

abbrev pub keys : {V : Type 0} → Dict V → List ℕ
keys d = map (λ entry. entry.0) d

-- Nothing but new transactions is announced.
abbrev pub IsNews : {H : Type 0} → List (Event H) → Type 0
IsNews [] = Unit {0}
IsNews (new_transaction _ ∷ events) = IsNews events
IsNews (new_unit_transaction _ ∷ events) = IsNews events
IsNews (_ ∷ events) = ⊥

-- The tables are consistent, and grew by just what the events announce, in order.
pub record IsScan {H : Type 0} (db db' : VaultTables) (events : List (Event H)) : Type 0 where
  pub consistent : IsConsistent db'
  pub rows : db'.transactions ≡ db.transactions ++ rows_of events
  pub news : IsNews events
  pub units : keys db'.transactions_runes ≡ keys db.transactions_runes ++ unit_txids_of events

-- The indexer with new tables, and with events broadcast.
abbrev pub scanned : {H : Type 0} → VaultTables → List (Event H) → Indexer H → Indexer H
scanned vaults events s = record s {
  database = record s.database { vaults = vaults };
  events_bus = s.events_bus ++ events;
}

module _ {H : Type 0} where
  rows_of-append : (es fs : List (Event H)) → rows_of (es ++ fs) ≡ rows_of es ++ rows_of fs
  unfolding rows_of
  rows_of-append [] fs = refl
  rows_of-append (new_transaction meta ∷ es) fs =
      ap (λ rows. (meta.vault_tx.txid, meta) ∷ rows) (rows_of-append es fs)
  rows_of-append (_ ∷ es) fs = rows_of-append es fs

  unit_txids_of-append :
      (es fs : List (Event H)) → unit_txids_of (es ++ fs) ≡ unit_txids_of es ++ unit_txids_of fs
  unfolding unit_txids_of
  unit_txids_of-append [] fs = refl
  unit_txids_of-append (new_unit_transaction new ∷ es) fs =
      ap (λ ids. new.utx.txid ∷ ids) (unit_txids_of-append es fs)
  unit_txids_of-append (_ ∷ es) fs = unit_txids_of-append es fs

  IsNews-append : (es fs : List (Event H)) → IsNews es → IsNews fs → IsNews (es ++ fs)
  IsNews-append [] fs n m = m
  IsNews-append (new_transaction _ ∷ es) fs n m = IsNews-append es fs n m
  IsNews-append (new_unit_transaction _ ∷ es) fs n m = IsNews-append es fs n m
  IsNews-append (_ ∷ es) fs n m = absurd n

  pub IsScan-nothing : (db : VaultTables) → IsConsistent db → IsScan {H = H} db db []
  unfolding rows_of unit_txids_of
  IsScan-nothing db c = record {
    consistent = c;
    news = tt;
    rows = sym (append-nil db.transactions);
    units = sym (append-nil (keys db.transactions_runes));
  }

  pub IsScan-append :
      (db db' db'' : VaultTables) (es fs : List (Event H))
      → IsScan db db' es
      → IsScan db' db'' fs
      → IsScan db db'' (es ++ fs)
  IsScan-append db db' db'' es fs p q = record {
    consistent = q.consistent;
    news = IsNews-append es fs p.news q.news;
    rows =
        q.rows
        ∙ ap (λ rows. rows ++ rows_of fs) p.rows
        ∙ append_assoc db.transactions (rows_of es) (rows_of fs)
        ∙ ap (λ rows. db.transactions ++ rows) (sym (rows_of-append es fs));
    units =
        q.units
        ∙ ap (λ ids. ids ++ unit_txids_of fs) p.units
        ∙ append_assoc (keys db.transactions_runes) (unit_txids_of es) (unit_txids_of fs)
        ∙ ap (λ ids. keys db.transactions_runes ++ ids) (sym (unit_txids_of-append es fs));
  }

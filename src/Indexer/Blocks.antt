-- ===== src/Indexer/Blocks.antt =====
-- The transactions of a block (vault-indexer/src/indexer/mod.rs).
pub mod Rows
pub mod Scan
use mutinynet_indexer.Common.{ℕ, suc, Bool, true, false, List, [], ◌∷◌, if◌then◌else◌}
use mutinynet_indexer.Cache.Block.{BlockHeader, block_hash}
use mutinynet_indexer.Db.Error as Db
use mutinynet_indexer.Db.Vault.{VaultTables, VaultTxMeta, Place, store_vault_tx, store_unit_tx}
use mutinynet_indexer.Indexer.{Indexer, broadcast}
use mutinynet_indexer.Indexer.Error.{Result, ok, err, panic, ◌>>=◌}
use mutinynet_indexer.Indexer.Event.{NewUnitTx, new_transaction, new_unit_transaction}
use mutinynet_indexer.P2p.{Block}
use mutinynet_indexer.Vault.Bitcoin.{Transaction, Script}
use mutinynet_indexer.Vault.Parse
use mutinynet_indexer.Vault.Runes
use mutinynet_indexer.Vault.Runes.{Ordinals, UnitTransaction}
use mutinynet_indexer.Vault.Transaction as Vault

module _ {H : Type 0} where
  abbrev pub with_vaults : VaultTables → Indexer H → Indexer H
  with_vaults vaults s = record s { database = record s.database { vaults = vaults } }

  -- What follows `store_vault_tx`: an error is only logged.
  unfoldable pub announce_vault_tx :
      Db.Result (VaultTxMeta × VaultTables) → Indexer H → Result (Bool × Indexer H)
  unfolding broadcast
  announce_vault_tx (err Db.panic) s = err panic
  announce_vault_tx (err e) s = ok (true, s)
  announce_vault_tx (ok (meta, vaults)) s =
      ok (true, broadcast (new_transaction meta) (with_vaults vaults s))

  unfoldable pub announce_unit_tx :
      UnitTransaction → Place → Db.Result VaultTables → Indexer H → Result (Bool × Indexer H)
  unfolding broadcast
  announce_unit_tx utx place (err Db.panic) s = err panic
  announce_unit_tx utx place (err e) s = ok (true, s)
  announce_unit_tx utx place (ok vaults) s = ok (
    true,
    broadcast
        (new_unit_transaction (record {
          utx = utx;
          block_hash = place.block_hash;
          block_pos = place.block_pos;
          height = place.height;
        }))
        (with_vaults vaults s),
  )

  -- A transaction that is no vault transaction is passed over, one that cannot be read too.
  unfoldable pub detect_vault_tx :
      ⦃c : Script⦄ → Place → Transaction → Indexer H → Result (Bool × Indexer H)
  unfolding announce_vault_tx
  detect_vault_tx place tx s = elim (Parse.from_tx tx) [
    | Vault.panic ↦ err panic
    | Vault.err _ ↦ ok (false, s)
    | Vault.ok vtx ↦ announce_vault_tx (store_vault_tx vtx place tx s.database.vaults) s
  ]

  unfoldable pub detect_unit_tx :
      ⦃o : Ordinals⦄ → Place → Transaction → Indexer H → Result (Bool × Indexer H)
  unfolding announce_unit_tx
  detect_unit_tx place tx s = elim (Runes.from_tx tx) [
    | Runes.err _ ↦ ok (false, s)
    | Runes.ok utx ↦
        announce_unit_tx utx place (store_unit_tx tx utx.unit_amount s.database.vaults) s
  ]

  module _ ⦃c : Script⦄ ⦃o : Ordinals⦄ where
    -- The rest of a round of the loop, which a vault transaction skips.
    unfoldable pub after_vault : Place → Transaction → Bool × Indexer H → Result (Indexer H)
    unfolding detect_unit_tx
    after_vault place tx (true, s) = ok s
    after_vault place tx (false, s) = do (_, s') ← detect_unit_tx place tx s; ok s'

    unfoldable pub process_tx : Place → Transaction → Indexer H → Result (Indexer H)
    unfolding detect_vault_tx after_vault
    process_tx place tx s = do detected ← detect_vault_tx place tx s; after_vault place tx detected

    -- The loop over the transactions, from the `i`th on.
    unfoldable pub process_txs : ℕ → ℕ → ℕ → List Transaction → Indexer H → Result (Indexer H)
    unfolding process_tx
    process_txs hash height i [] s = ok s
    process_txs hash height i (tx ∷ txs) s = do
      s' ← process_tx (record { block_hash = hash; block_pos = i; height = height }) tx s
      process_txs hash height (suc i) txs s'

    unfoldable pub process_block :
        ⦃b : BlockHeader H⦄ → Block H → ℕ → Indexer H → Result (Indexer H)
    unfolding process_txs
    process_block block height s = process_txs (block_hash block.header) height 0 block.txdata s

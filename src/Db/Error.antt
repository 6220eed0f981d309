-- ===== src/Db/Error.antt =====
-- The errors of the database methods (vault-indexer/src/db/error.rs) that do not come from SQLite
-- or from an encoder, and the results of the methods.
use mutinynet_indexer.Common.{ℕ}
use mutinynet_indexer.Network.{Network}
use mutinynet_indexer.Common.Outcome.{Outcome}
pub use mutinynet_indexer.Common.Outcome.{ok, err, ok_or, guard, ok-injective, >>=-eq-ok, ◌>>=◌}

-- `execute_query` is a statement that SQLite refuses: a key that is there already, or a number
-- that does not fit its column; `fetch_row` is a row whose columns do not have the types asked for.
pub data Error : Type 0 where
  orphan_block : ℕ → ℕ → Error
  no_metadata : Error
  database_network_mismatch : Network → Network → Error
  vault_tx_no_inputs : ℕ → Error
  unknown_vault_tx : ℕ → Error
  unknown_vault_id : ℕ → Error
  unknown_unit_tx : ℕ → Error
  assume_btc_volume : ℕ → Error
  assume_unit_tx : ℕ → Error
  execute_query : Error
  fetch_row : Error
  panic : Error

abbrev pub Result {ℓ} : Type ℓ → Type ℓ
Result A = Outcome Error A

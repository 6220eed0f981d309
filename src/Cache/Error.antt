-- ===== src/Cache/Error.antt =====
-- The errors of the cache (vault-indexer/src/cache/error.rs) and the results of its methods.
use mutinynet_indexer.Common.{ℕ}
use mutinynet_indexer.Db.Error.{Error as DbError}
use mutinynet_indexer.Common.Outcome.{Outcome}
pub use mutinynet_indexer.Common.Outcome.{ok, err, ok-injective, ok_or, guard, >>=-eq-ok, ◌>>=◌}

-- `panic` is a failed index or assertion of the source, and `out_of_fuel` a loop of the model
-- that was cut off: it is no error of the source.
pub data Error : Type 0 where
  missing_header : ℕ → Error
  missing_header_height : ℕ → Error
  already_existing : ℕ → Error
  chain_mismatch_tip : ℕ → ℕ → Error
  chain_mismatch_root : ℕ → ℕ → Error
  database : DbError → Error
  panic : Error
  out_of_fuel : Error

abbrev pub Result {ℓ} : Type ℓ → Type ℓ
Result A = Outcome Error A

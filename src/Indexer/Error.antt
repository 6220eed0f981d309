-- ===== src/Indexer/Error.antt =====
-- The errors of the indexer (vault-indexer/src/indexer/mod.rs) and the results of its methods. The
-- errors of poisoned locks come after a panic of another thread, with which a run ends here.
-- `EventBusSend` is left out for the same reason: the dispatcher, which holds the other end of the
-- channel, ends only on a poisoned lock while the main loop runs.
use mutinynet_indexer.Common.Outcome.{Outcome}
use mutinynet_indexer.Cache.Error.{Error as CacheError, Result as CacheResult}
use mutinynet_indexer.Db.Error.{Error as DbError, Result as DbResult}
use mutinynet_indexer.Indexer.Node.Error.{Error as NodeError}
pub use mutinynet_indexer.Common.Outcome.{ok, err, ok-injective, >>=-eq-ok, ◌>>=◌}

pub data Error : Type 0 where
  event_bus_recv : Error
  node : NodeError → Error
  database : DbError → Error
  cache : CacheError → Error
  panic : Error

abbrev pub Result {ℓ} : Type ℓ → Type ℓ
Result A = Outcome Error A

-- The question mark operator on the results of the other components.
abbrev pub from_cache {ℓ} : {A : Type ℓ} → CacheResult A → Result A
from_cache (err e) = err (cache e)
from_cache (ok a) = ok a

abbrev pub from_database {ℓ} : {A : Type ℓ} → DbResult A → Result A
from_database (err e) = err (database e)
from_database (ok a) = ok a

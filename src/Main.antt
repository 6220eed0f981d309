-- ===== src/Main.antt =====
-- The program (vault-indexer/src/main.rs): the arguments, and what is started in which order.
use Prim.Native.String.{String}
use mutinynet_indexer.Common.{ℕ, ◌≡◌, ◌≢◌, refl, Bool, false, some, List}
use mutinynet_indexer.Common.Outcome.{Outcome, ok, err, ◌>>=◌}
use mutinynet_indexer.Cache.Block.{BlockHeader}
use mutinynet_indexer.Db.Error as Db
use mutinynet_indexer.Db.Metadata.{DbMetadata}
use mutinynet_indexer.Db.Setup.{Database, Genesis}
use mutinynet_indexer.Db.Setup.Fresh.{initialize_db-mismatch}
use mutinynet_indexer.Indexer.Builder.{
  IndexerBuilder, new, set_network, set_node, set_db, set_batch_size, set_start_height, set_rescan,
  build,
}
use mutinynet_indexer.Indexer.Error as Indexer
use mutinynet_indexer.Indexer.Run.{Round, Progress, run}
use mutinynet_indexer.Network.{Network, mutinynet}
use mutinynet_indexer.Service as Service
use mutinynet_indexer.Vault.Bitcoin.{Script}
use mutinynet_indexer.Vault.Runes.{Ordinals}

pub data Error : Type 0 where
  indexer : Indexer.Error → Error
  service : Service.Error → Error

abbrev pub Result {ℓ} : Type ℓ → Type ℓ
Result A = Outcome Error A

pub record Args : Type 0 where
  pub network : Network
  pub address : String
  pub database : String
  pub batch : ℕ
  pub start_height : ℕ
  pub websocket_address : String
  pub rescan : Bool

-- What is taken for the arguments that are not given.
abbrev pub default_args : Args
default_args = record {
  network = mutinynet;
  address = "45.79.52.207:38333";
  database = "indexer.sqlite";
  batch = 500;
  start_height = 1527651;
  websocket_address = "127.0.0.1:39987";
  rescan = false;
}

-- The question mark operator on the results of the parts.
abbrev pub from_indexer {ℓ} : {A : Type ℓ} → Indexer.Result A → Result A
from_indexer (err e) = err (indexer e)
from_indexer (ok a) = ok a

abbrev pub from_service {ℓ} : {A : Type ℓ} → Service.Result A → Result A
from_service (err e) = err (service e)
from_service (ok a) = ok a

abbrev pub configure : Args → IndexerBuilder
configure args = set_rescan args.rescan (
    set_start_height args.start_height (
      set_batch_size args.batch
        (set_db args.database (set_node args.address (set_network args.network new)))))

module _ {H : Type 0} ⦃b : BlockHeader H⦄ ⦃g : Genesis H⦄ ⦃c : Script⦄ ⦃o : Ordinals⦄ where
  -- `found` is what is in the database at the path of the arguments, and `started` says whether
  -- the websocket service could be started at its address.
  unfoldable pub main :
      Database H → Service.Result (Unit {0}) → ℕ → List (Round H) → Args → Result (Progress H)
  unfolding build run
  main found started fuel rounds args = do
    built ← from_indexer (build found (configure args))
    _ ← from_service started
    from_indexer (run fuel rounds built)

  -- On a database that was set up for another network than the one of the arguments, the program
  -- ends with the error that names both, whatever else is in the database: the service is not
  -- started, and the loop of the indexer does not run, so that neither can change the outcome.
  pub main-mismatch :
      (found : Database H) (started : Service.Result (Unit {0})) (fuel : ℕ)
      (rounds : List (Round H)) (args : Args) (m : DbMetadata)
      → found.metadata ≡ some m
      → m.network ≢ args.network
      → main found started fuel rounds args
        ≡ err (indexer (Indexer.database (Db.database_network_mismatch m.network args.network)))
  unfolding main build
  main-mismatch found started fuel rounds args m there other =
      rw (initialize_db-mismatch args.network args.start_height args.rescan found m there other)
        refl

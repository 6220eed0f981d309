-- ===== src/Tests/Main.antt =====
-- The program (vault-indexer/src/main.rs) on a database of another network.
use mutinynet_indexer.Common.{ℕ, ◌≡◌, refl, [], ◌∷◌}
use mutinynet_indexer.Common.Outcome.{ok, err}
use mutinynet_indexer.Db.Error as Db
use mutinynet_indexer.Db.Setup.Fresh.{fresh_database}
use mutinynet_indexer.Indexer.Error as Indexer
use mutinynet_indexer.Indexer.Event.{disconnected}
use mutinynet_indexer.Indexer.Run.{received, timeout}
use mutinynet_indexer.Main
use mutinynet_indexer.Main.{default_args, main-mismatch}
use mutinynet_indexer.Network.{mutinynet, signet}
use mutinynet_indexer.Tests.Cache.{blocks}
use mutinynet_indexer.Tests.Indexer.{ordinals, origin}
use mutinynet_indexer.Tests.Vault.{script}

main-mismatch_example :
    Main.main
      (fresh_database {H = ℕ} signet 5)
      (ok tt)
      1
      (timeout ∷ received disconnected ∷ [])
      default_args
    ≡ err (Main.indexer (Indexer.database (Db.database_network_mismatch signet mutinynet)))
main-mismatch_example =
    main-mismatch (fresh_database {H = ℕ} signet 5) (ok tt) 1 (timeout ∷ received disconnected ∷ [])
      default_args _ refl (λ e. cc)

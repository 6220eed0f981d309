-- ===== src/Indexer/System/Flood.antt =====
-- A node that sends more than the indexer takes (vault-indexer/src/indexer/mod.rs, `run`).
use mutinynet_indexer.Common.{ℕ, ◌≡◌, true, [], ◌∷◌, ◌++◌}
use mutinynet_indexer.Cache.Block.{BlockHeader}
use mutinynet_indexer.Indexer.{Indexer}
use mutinynet_indexer.Cache.Error as Cache
use mutinynet_indexer.Indexer.Event.{Event, incoming_message}
use mutinynet_indexer.Indexer.System.{System, greeted}
use mutinynet_indexer.P2p.{ping}
use mutinynet_indexer.Vault.Bitcoin.{Script}
use mutinynet_indexer.Vault.Runes.{Ordinals}

module _ {H : Type 0} ⦃b : BlockHeader H⦄ ⦃c : Script⦄ ⦃o : Ordinals⦄ (capacity fuel : ℕ) where
  abbrev pinged : Event H
  pinged = incoming_message (ping 0)

  -- Connected, with no event under way but those for the main loop.
  record IsCalm (s : System H) : Type 0 where
    channel : s.channel ≡ []
    node_queue : s.node_queue ≡ []
    connected : greeted s.posted ≡ true

  abbrev with_ping : System H → System H
  with_ping s = record s {
    channel = [];
    node_queue = [];
    main_queue = s.main_queue ++ (pinged ∷ []);
    posted = s.posted ++ (pinged ∷ []);
  }

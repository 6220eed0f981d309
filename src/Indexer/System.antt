-- ===== src/Indexer/System.antt =====
-- The threads of the indexer and what they pass to one another
-- (vault-indexer/src/indexer/mod.rs, `run`; vault-indexer/src/indexer/node.rs, `node_process`).
pub mod Delivery
pub mod Blocked
pub mod Flood
use mutinynet_indexer.Common.{ℕ, ◌≡◌, ◌<◌, Bool, true, false, List, [], ◌∷◌, ◌++◌, length}
use mutinynet_indexer.Cache.Block.{BlockHeader}
use mutinynet_indexer.Indexer.{Indexer}
use mutinynet_indexer.Indexer.Error.{ok}
use mutinynet_indexer.Indexer.Event.{
  Event, handshaked, disconnected, incoming_message, outcoming_message, new_transaction,
  new_unit_transaction,
}
use mutinynet_indexer.Indexer.Run.{on_event}
use mutinynet_indexer.P2p.{NetworkMessage}
use mutinynet_indexer.Vault.Bitcoin.{Script}
use mutinynet_indexer.Vault.Runes.{Ordinals}

-- The channel leads to the dispatcher, and the event bus has a queue for each of its readers: the
-- main loop and the node worker. In the indexer, `sent` and `events_bus` are what its handler has
-- yet to send and to broadcast. The other fields are history: the attempts to write a message to
-- the socket with what became of them, the messages the main loop has asked for, and what was put
-- into the channel and taken by the main loop.
pub record System (H : Type 0) : Type 0 where
  pub indexer : Indexer H
  pub channel : List (Event H)
  pub main_queue : List (Event H)
  pub node_queue : List (Event H)
  pub writes : List (NetworkMessage H × Bool)
  pub asked : List (NetworkMessage H)
  pub posted : List (Event H)
  pub handled : List (Event H)

-- The start of `run`: nothing is under way.
abbrev pub started : {H : Type 0} → Indexer H → System H
started s = record {
  indexer = record s { sent = []; events_bus = [] };
  channel = [];
  main_queue = [];
  node_queue = [];
  writes = [];
  asked = [];
  posted = [];
  handled = [];
}

module _ {H : Type 0} where
  -- The messages that events ask to send.
  unfoldable pub outgoing : List (Event H) → List (NetworkMessage H)
  outgoing [] = []
  outgoing (outcoming_message msg ∷ events) = msg ∷ outgoing events
  outgoing (_ ∷ events) = outgoing events

  -- The events that come through the channel: all but the new transactions.
  unfoldable pub passed : List (Event H) → List (Event H)
  passed [] = []
  passed (new_transaction _ ∷ events) = passed events
  passed (new_unit_transaction _ ∷ events) = passed events
  passed (event ∷ events) = event ∷ passed events

  -- What the node worker has to say.
  abbrev pub IsFromNode : Event H → Type 0
  IsFromNode (handshaked _) = Unit {0}
  IsFromNode disconnected = Unit {0}
  IsFromNode (incoming_message _) = Unit {0}
  IsFromNode _ = ⊥

  -- Whether a connection was made before.
  unfoldable pub greeted : List (Event H) → Bool
  greeted [] = false
  greeted (handshaked _ ∷ events) = true
  greeted (_ ∷ events) = greeted events

  -- A message of the node comes after a handshake only.
  abbrev pub Follows : List (Event H) → Event H → Type 0
  Follows posted (incoming_message _) = greeted posted ≡ true
  Follows posted _ = Unit {0}

  -- An event is put into the queue of each reader.
  abbrev pub broadcast_to : Event H → System H → System H
  broadcast_to event s = record s {
    main_queue = s.main_queue ++ (event ∷ []);
    node_queue = s.node_queue ++ (event ∷ []);
  }

  -- A broadcast waits until each queue has room.
  abbrev pub HasRoom : ℕ → System H → Type 0
  HasRoom capacity s = (length s.main_queue < capacity) × (length s.node_queue < capacity)

  abbrev pub post : Event H → System H → System H
  post event s = record s { channel = s.channel ++ (event ∷ []); posted = s.posted ++ (event ∷ []) }

  -- The dispatcher takes an event from the channel and broadcasts it.
  pub data Dispatches (capacity : ℕ) (s : System H) : System H → Type 0 where
    dispatches :
        (event : Event H) (rest : List (Event H))
        → s.channel ≡ event ∷ rest
        → HasRoom capacity s
        → Dispatches capacity s (broadcast_to event (record s { channel = rest }))

  -- The node worker puts an event into the channel, writes a message to the socket or fails to,
  -- or passes an event by.
  pub data Serves (capacity : ℕ) (s : System H) : System H → Type 0 where
    receives :
        (event : Event H)
        → IsFromNode event
        → Follows s.posted event
        → length s.channel < capacity
        → Serves capacity s (post event s)
    writes :
        (msg : NetworkMessage H) (done : Bool) (rest : List (Event H))
        → s.node_queue ≡ outcoming_message msg ∷ rest
        → Serves capacity s
            (record s { node_queue = rest; writes = s.writes ++ ((msg, done) ∷ []) })
    passes_by :
        (event : Event H) (rest : List (Event H))
        → s.node_queue ≡ event ∷ rest
        → outgoing (event ∷ []) ≡ []
        → Serves capacity s (record s { node_queue = rest })

module _ {H : Type 0} ⦃b : BlockHeader H⦄ ⦃c : Script⦄ ⦃o : Ordinals⦄ where
  -- The main loop takes an event and deals with it, and then broadcasts and sends, one event after
  -- another, what came of it. Only then it takes the next.
  pub data Reacts (capacity fuel : ℕ) (s : System H) : System H → Type 0 where
    takes :
        (event : Event H) (rest : List (Event H)) (t : Indexer H)
        → s.main_queue ≡ event ∷ rest
        → s.indexer.sent ≡ []
        → s.indexer.events_bus ≡ []
        → on_event fuel event s.indexer ≡ ok t
        → Reacts capacity fuel s (record s {
          indexer = t;
          main_queue = rest;
          handled = s.handled ++ (event ∷ []);
          asked = s.asked ++ outgoing t.sent;
        })
    announces :
        (event : Event H) (rest : List (Event H))
        → s.indexer.events_bus ≡ event ∷ rest
        → HasRoom capacity s
        → Reacts capacity fuel s
            (broadcast_to event (record s { indexer = record s.indexer { events_bus = rest } }))
    sends :
        (event : Event H) (rest : List (Event H))
        → s.indexer.sent ≡ event ∷ rest
        → length s.channel < capacity
        → Reacts capacity fuel s
            (post event (record s { indexer = record s.indexer { sent = rest } }))

  -- A step of one of the threads.
  pub data Step (capacity fuel : ℕ) (s t : System H) : Type 0 where
    dispatcher : Dispatches capacity s t → Step capacity fuel s t
    node : Serves capacity s t → Step capacity fuel s t
    main : Reacts capacity fuel s t → Step capacity fuel s t

  -- The threads take turns in any order.
  pub data Runs (capacity fuel : ℕ) (s : System H) : System H → Type 0 where
    start : Runs capacity fuel s s
    later :
        {t u : System H} → Runs capacity fuel s t → Step capacity fuel t u → Runs capacity fuel s u

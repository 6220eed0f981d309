-- ===== src/Indexer.antt =====
-- The indexer (vault-indexer/src/indexer/mod.rs): its state, and the events it sends.
pub mod Error
pub mod Event
pub mod Node
pub mod Blocks
pub mod Handlers
pub mod Run
pub mod System
pub mod Builder
use mutinynet_indexer.Common.{ℕ, Bool, List, [], ◌∷◌, ◌++◌, if◌then◌else◌}
use mutinynet_indexer.Common.Int.{ℤ}
use mutinynet_indexer.Cache.Headers.{HeadersCache, get_current_height}
use mutinynet_indexer.Db.Setup.{Database}
use mutinynet_indexer.Indexer.Event.{Event as IndexerEvent}
use mutinynet_indexer.Network.{Network}

-- `Indexer` with the variables of its loop, `batch_left` and `max_scanned_height`. What the
-- indexer sends is kept in order: `sent` is what goes through `events_sender`, and
-- `events_bus` what is broadcast at once. Locks and the capacity of the channels are left out.
pub record Indexer (H : Type 0) : Type 0 where
  pub network : Network
  pub start_height : ℕ
  pub node_connected : Bool
  pub database : Database H
  pub headers_cache : HeadersCache H
  pub batch_size : ℕ
  pub remote_height : ℕ
  pub rescan : Bool
  pub events_bus : List (IndexerEvent H)
  pub sent : List (IndexerEvent H)
  pub batch_left : ℤ
  pub max_scanned_height : ℕ

pub data NodeStatus : Type 0 where
  disconnected connected : NodeStatus

module _ {H : Type 0} where
  unfoldable pub node_status : Indexer H → NodeStatus
  node_status s = if s.node_connected then connected else disconnected

  unfoldable pub chain_height : Indexer H → ℕ
  unfolding get_current_height
  chain_height s = get_current_height s.headers_cache

  -- The height that the scan began at, as the source has it.
  unfoldable pub scanned_height : Indexer H → ℕ
  scanned_height s = s.start_height

  -- `events_sender.send`
  unfoldable pub send : IndexerEvent H → Indexer H → Indexer H
  send event s = record s { sent = s.sent ++ (event ∷ []) }

  -- `events_bus.broadcast`
  unfoldable pub broadcast : IndexerEvent H → Indexer H → Indexer H
  broadcast event s = record s { events_bus = s.events_bus ++ (event ∷ []) }

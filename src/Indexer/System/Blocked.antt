-- ===== src/Indexer/System/Blocked.antt =====
-- Full queues stop the indexer for good (vault-indexer/src/indexer/mod.rs, `run`): the main loop
-- waits for room that only the main loop can make.
use mutinynet_indexer.Common.{ℕ, ◌≡◌, ◌≢◌, ◌≤◌, [], length, ◌⊎◌}
use mutinynet_indexer.Indexer.System.{System}

module _ {H : Type 0} where
  -- The main loop has something to broadcast, or something to send into a full channel.
  abbrev pub IsWaiting : ℕ → System H → Type 0
  IsWaiting capacity s =
      (s.indexer.events_bus ≢ []) ⊎ ((s.indexer.sent ≢ []) × (capacity ≤ length s.channel))

  pub record IsBlocked (capacity : ℕ) (s : System H) : Type 0 where
    pub full : capacity ≤ length s.main_queue
    pub waiting : IsWaiting capacity s

  -- The main loop has got no further.
  pub record Halts (s t : System H) : Type 0 where
    pub handled : t.handled ≡ s.handled
    pub main_queue : t.main_queue ≡ s.main_queue
    pub database : t.indexer.database ≡ s.indexer.database
    pub headers_cache : t.indexer.headers_cache ≡ s.indexer.headers_cache

-- ===== src/Tests/Indexer.antt =====
-- Runs of the indexer on a few blocks (vault-indexer/src/indexer/mod.rs).
use mutinynet_indexer.Common.{
  ℕ, ◌≡◌, refl, true, false, none, some, [], ◌∷◌, ◌++◌, take, arith, List, inr,
}
use mutinynet_indexer.Common.Int.{pos, ◌+ℤ◌, ◌-ℤ◌}
use mutinynet_indexer.Cache.Chain
use mutinynet_indexer.Cache.Headers.Sync
use mutinynet_indexer.Cache.Error as CacheError
use mutinynet_indexer.Cache.Headers.Requests.{make_get_headers}
use mutinynet_indexer.Db.Error as DbError
use mutinynet_indexer.Cache.Headers
use mutinynet_indexer.Db.Header
use mutinynet_indexer.Db.Metadata
use mutinynet_indexer.Db.Metadata.{DbMetadata}
use mutinynet_indexer.Common.Dict.{lookup, insert, erase, values}
use mutinynet_indexer.Db.Vault.{VaultTxMeta}
use mutinynet_indexer.Db.Setup.{Genesis, empty_database, initialize_db}
use mutinynet_indexer.Db.Setup.Fresh.{initialize_db-fresh, fresh_database}
use mutinynet_indexer.Db.Setup.Again.{initialize_db-twice}
use mutinynet_indexer.Indexer.{Indexer}
use mutinynet_indexer.Indexer.Blocks
use mutinynet_indexer.Indexer.Blocks.Scan.{Scans, process_block-Scans}
use mutinynet_indexer.Indexer.Builder
use mutinynet_indexer.Indexer.Builder.Fresh.{IsNewborn, build-IsNewborn}
use mutinynet_indexer.Indexer.Error as IndexerError
use mutinynet_indexer.Indexer.Event.{
  Event, handshaked, disconnected, incoming_message, outcoming_message, new_transaction,
}
use mutinynet_indexer.Indexer.Handlers
use mutinynet_indexer.Indexer.Handlers.Invs.{on_new_invs-asks, asking, count_unknown}
use mutinynet_indexer.Indexer.Handlers.Quiet.{IsQuiet}
use mutinynet_indexer.Indexer.Handlers.Request.{asked, request_blocks-asks}
use mutinynet_indexer.Indexer.Run as Loop
use mutinynet_indexer.Indexer.Run.{Round, running, received, timeout}
use mutinynet_indexer.Indexer.Run.Announce.{Announces, run_loop-Announces}
use mutinynet_indexer.Indexer.Run.CatchUp.{IsSound, IsCaughtUp, wanted}
use mutinynet_indexer.Indexer.Run.Deliver.{deliveries, hashes_of, sync-IsCaughtUp}
use mutinynet_indexer.Indexer.Run.Reach.{IsInOrder, Reaches, here, next, Reaches-IsInOrder}
use mutinynet_indexer.Indexer.Run.Stall.{bring_no_block, run_loop-IsQuiet}
use mutinynet_indexer.Network.{signet}
use mutinynet_indexer.P2p.{Block, GetHeadersMessage, headers, get_headers, get_data}
use mutinynet_indexer.P2p.Blockdata as Inventory
use mutinynet_indexer.Tests.Cache.{blocks, two_blocks, two_blocks-IsValid, reorganized}
use mutinynet_indexer.Tests.Vault.{
  script, opening_raw, opening_meta, one_vault, no_vaults, no_vaults-IsConsistent,
}
use mutinynet_indexer.Db.Vault as Tables
use mutinynet_indexer.Vault.Action
use mutinynet_indexer.Vault.Bytes
use mutinynet_indexer.Vault.Custody
use mutinynet_indexer.Vault.Encode
use mutinynet_indexer.Vault.Parse
use mutinynet_indexer.Vault.Version
use mutinynet_indexer.Vault.Runes.{Ordinals}

-- No transaction has a runestone.
instance pub ordinals : Ordinals
ordinals = record { decipher = λ tx. none }

instance unfoldable pub origin : Genesis ℕ
origin = record { genesis_header = λ network. 0 }

abbrev pub metadata : DbMetadata
metadata = record { network = signet; tip_block_hash = 3; scanned_height = 0 }

-- Two blocks above genesis are known, and none of them is scanned.
abbrev pub two_ahead : Indexer ℕ
two_ahead = record {
  network = signet;
  start_height = 0;
  node_connected = true;
  database = record { headers = two_blocks.headers; metadata = some metadata; vaults = no_vaults };
  headers_cache = two_blocks;
  batch_size = 1;
  remote_height = 2;
  rescan = false;
  events_bus = [];
  sent = [];
  batch_left = pos 0;
  max_scanned_height = 0;
}

two_ahead-IsSound : IsSound two_ahead
two_ahead-IsSound = record {
  valid = two_blocks-IsValid;
  consistent = no_vaults-IsConsistent;
  small = omega arith;
  some_batch = omega arith;
}

abbrev block_1 : Block ℕ
block_1 = record { header = 1; txdata = opening_raw ∷ [] }

abbrev block_2 : Block ℕ
block_2 = record { header = 2; txdata = [] }

sync-IsCaughtUp_example :
    (t : Indexer ℕ) × (u : Indexer ℕ) × (asks : List (Event ℕ)) × (Handlers.request_next 3 two_ahead
      ≡ IndexerError.ok t)
    × (t ≡ asked (take two_ahead.batch_size (hashes_of (block_1 ∷ block_2 ∷ []))) two_ahead)
    × (Loop.run_loop 1 (deliveries (block_1 ∷ block_2 ∷ [])) t ≡ IndexerError.ok (running u))
    × IsCaughtUp u
    × (u.sent ≡ two_ahead.sent ++ asks)
    × (wanted asks ≡ hashes_of (block_1 ∷ block_2 ∷ []))
unfolding blocks
sync-IsCaughtUp_example =
    sync-IsCaughtUp 1 3 (block_1 ∷ block_2 ∷ []) metadata two_ahead two_ahead-IsSound refl refl
      (omega arith) (omega arith) (omega arith) refl

process_block-Scans_example : Scans two_ahead (Blocks.process_block block_1 1 two_ahead)
process_block-Scans_example = process_block-Scans block_1 1 two_ahead no_vaults-IsConsistent

request_blocks-asks_example :
    Handlers.request_blocks 0 two_ahead ≡ IndexerError.ok (asked (2 ∷ []) two_ahead)
request_blocks-asks_example =
    request_blocks-asks 0 two_ahead two_blocks-IsValid (omega arith) (omega arith)

build-IsNewborn_example :
    (s : Indexer ℕ) × (Builder.build empty_database Builder.new ≡ IndexerError.ok s)
    × IsNewborn Builder.new s
unfolding blocks origin
build-IsNewborn_example = build-IsNewborn Builder.new refl

initialize_db-twice_example :
    initialize_db signet 9 false (fresh_database signet 5)
    ≡ DbError.ok (fresh_database {H = ℕ} signet 5)
initialize_db-twice_example =
    initialize_db-twice signet 5 9 true empty_database (fresh_database signet 5)
      (initialize_db-fresh signet 5 true)

-- Two blocks are expected, and one arrives, with an opening of a vault.
abbrev waiting : Indexer ℕ
waiting = record two_ahead { batch_left = pos 2 }

abbrev opened_meta : VaultTxMeta
opened_meta = record opening_meta { block_hash = 2; block_pos = 0; height = 1 }

abbrev after_opening : Indexer ℕ
after_opening = record waiting {
  database = record waiting.database {
    vaults = record one_vault { transactions = (77, opened_meta) ∷ [] };
  };
  events_bus = new_transaction opened_meta ∷ [];
  batch_left = pos 1;
  max_scanned_height = 1;
}

opening_rounds_run :
    Loop.run_loop 1 (timeout ∷ deliveries (block_1 ∷ [])) waiting
    ≡ IndexerError.ok (running after_opening)
unfolding blocks script lookup insert ◌-ℤ◌ Loop.run_loop Parse.from_tx Encode.encode
    Version.from_protocol Version.to_protocol Action.from_protocol Action.to_protocol
    Bytes.next_bytes Bytes.to_be_bytes Tables.store_vault_tx Custody.assume_custody_value
    Custody.assume_parent_unit_tx Parse.known_version Action.unit_volume_sign
opening_rounds_run = refl

run_loop-Announces_example : Announces waiting after_opening
run_loop-Announces_example =
    run_loop-Announces 1 (timeout ∷ deliveries (block_1 ∷ [])) waiting (running after_opening)
      no_vaults-IsConsistent opening_rounds_run

-- The connection is lost and made again; the locator of the two blocks goes out, and the answer to
-- it brings nothing new.
abbrev pub locator : GetHeadersMessage
locator = record { locator_hashes = 3 ∷ 2 ∷ 1 ∷ []; stop_hash = 0 }

abbrev reconnection : List (Round ℕ)
reconnection =
    received disconnected ∷ received (handshaked 2) ∷ received (incoming_message (headers [])) ∷ []

abbrev reconnected : Indexer ℕ
reconnected = record waiting {
  headers_cache = record two_blocks { dirty = [] };
  database = record waiting.database { metadata = some metadata };
  sent = outcoming_message (get_headers locator) ∷ [];
}

reconnection_run : Loop.run_loop 1 reconnection waiting ≡ IndexerError.ok (running reconnected)
unfolding blocks lookup insert Loop.run_loop ◌-ℤ◌ Metadata.set_best_tip Header.store_raw_headers
    Headers.get_current_height Header.insert_rows Header.upsert
reconnection_run = refl

run_loop-IsQuiet_example : IsQuiet waiting reconnected
unfolding bring_no_block
run_loop-IsQuiet_example =
    run_loop-IsQuiet 1 reconnection waiting reconnected refl refl reconnection_run

pub locator_run : make_get_headers two_blocks ≡ CacheError.ok locator
unfolding make_get_headers ◌-ℤ◌
locator_run = refl

on_new_invs-asks_example :
    Handlers.on_new_invs (Inventory.block 2 ∷ Inventory.other ∷ Inventory.block 9 ∷ []) two_ahead
    ≡ IndexerError.ok (asking 1 locator two_ahead)
unfolding lookup count_unknown
on_new_invs-asks_example =
    on_new_invs-asks (Inventory.block 2 ∷ Inventory.other ∷ Inventory.block 9 ∷ []) locator
      two_ahead locator_run

-- A heavier block takes the place of block 2, the first block is asked for, and the connection is
-- lost.
abbrev after_fork : Indexer ℕ
after_fork = record two_ahead {
  headers_cache = record reorganized { dirty = [] };
  database = record two_ahead.database {
    headers = reorganized.headers;
    metadata = some (record metadata { tip_block_hash = 4 });
  };
  sent = outcoming_message (get_data (Inventory.block 2 ∷ [])) ∷ [];
  batch_left = pos 1;
}

fork_run :
    Loop.on_event 2 (incoming_message (headers (3 ∷ []))) two_ahead ≡ IndexerError.ok after_fork
unfolding blocks lookup insert values erase ◌-ℤ◌ Loop.on_event Metadata.set_best_tip
    Header.store_raw_headers Headers.get_current_height Header.insert_rows Header.upsert
    Sync.join_fork Sync.process_orphans Headers.get_chain_until Headers.inactivate
    Headers.store_active Headers.activate_one Headers.write Headers.resize Headers.truncate
    Chain.extend_tip Chain.new Chain.total_work Chain.headers Chain.len ◌+ℤ◌
fork_run = refl

fork-Reaches : Reaches 2 two_ahead (record after_fork { node_connected = false })
unfolding Loop.on_event lookup
fork-Reaches =
    next disconnected
      (next (incoming_message (headers (3 ∷ []))) here ((refl, tt), inr refl) fork_run) tt refl

Reaches-IsInOrder_example : IsInOrder (record after_fork { node_connected = false })
Reaches-IsInOrder_example =
    Reaches-IsInOrder 2 two_ahead (record after_fork { node_connected = false })
      (record { valid = two_blocks-IsValid; consistent = no_vaults-IsConsistent }) fork-Reaches

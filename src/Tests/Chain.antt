-- ===== src/Tests/Chain.antt =====
-- Header chains, requests, storage and orphans on a few blocks (vault-indexer/src/cache/headers.rs).
use mutinynet_indexer.Common.{
  ℕ, suc, ◌+◌, ◌≡◌, refl, true, false, some, List, [], ◌∷◌, ◌++◌, arith, get_elem?,
}
use mutinynet_indexer.Common.Dict.{lookup, insert, values}
use mutinynet_indexer.Cache.Error.{ok, ◌>>=◌, err, chain_mismatch_tip}
use mutinynet_indexer.Cache.Chain
use mutinynet_indexer.Cache.Chain.Refines
use mutinynet_indexer.Cache.Headers
use mutinynet_indexer.Cache.Headers.{HeadersCache}
use mutinynet_indexer.Common.Int.{◌-ℤ◌}
use mutinynet_indexer.Cache.Headers.Requests
use mutinynet_indexer.Cache.Headers.Requests.Locator
use mutinynet_indexer.Network
use mutinynet_indexer.Db.Header
use mutinynet_indexer.Db.Header.Batches
use mutinynet_indexer.Db.Header.{HeadersTable}
use mutinynet_indexer.Db.Metadata
use mutinynet_indexer.Db.Metadata.{MetaTable}
use mutinynet_indexer.Cache.Headers.Storage
use mutinynet_indexer.Cache.Headers.Sync
use mutinynet_indexer.Cache.Headers.Sync.{update_longest_chain}
use mutinynet_indexer.Cache.Headers.NoOrphan.{update_longest_chain-no_orphan}
use mutinynet_indexer.Cache.Headers.Stuck.{IsStuck, update_longest_chain-IsStuck}
use mutinynet_indexer.Db.Header.{HeaderRecord}
use mutinynet_indexer.Tests.Cache.{blocks, block, parent_of, two_blocks}

abbrev top : Chain.HeaderChain ℕ
top = record { root = 2; trunk_rev = []; trunk_for = [] }

abbrev bottom : Chain.HeaderChain ℕ
bottom = record { root = 1; trunk_rev = []; trunk_for = [] }

-- The chain of blocks 1 and 2, grown at its root.
abbrev grown_down : Chain.HeaderChain ℕ
grown_down = record { root = 1; trunk_rev = 2 ∷ []; trunk_for = [] }

-- The chain of blocks 1 and 2, grown at its tip.
abbrev grown_up : Chain.HeaderChain ℕ
grown_up = record { root = 1; trunk_rev = []; trunk_for = 2 ∷ [] }

extend_tip_lem_example :
    (Chain.tip_hash bottom ≡ 2)
    × (Chain.headers grown_up ≡ Chain.headers bottom ++ (2 ∷ []))
    × (Chain.len grown_up ≡ Chain.len bottom + 1)
    × (Chain.total_work grown_up ≡ Chain.total_work bottom + 1)
unfolding blocks Chain.extend_tip Chain.new
extend_tip_lem_example = Refines.extend_tip_lem 2 [] bottom {c' = grown_up} refl

-- The chain of blocks 0, 1 and 2, grown at its root twice.
abbrev grown_twice : Chain.HeaderChain ℕ
grown_twice = record { root = 0; trunk_rev = 2 ∷ 1 ∷ []; trunk_for = [] }

push_root_lem_example :
    (suc 1 ≡ parent_of 2)
    × (Chain.headers grown_down ≡ 1 ∷ Chain.headers top)
    × (Chain.len grown_down ≡ Chain.len top + 1)
    × (Chain.total_work grown_down ≡ 1 + Chain.total_work top)
unfolding blocks Chain.push_root Chain.new
push_root_lem_example = Refines.push_root_lem 1 top {c' = grown_down} refl

extend_tip-push_root_example :
    ((above : List ℕ) × (Chain.headers grown_twice ≡ above ++ (2 ∷ [])))
    × (Chain.extend_tip (6 ∷ []) grown_twice ≡ err (chain_mismatch_tip 1 7))
unfolding blocks Chain.push_root Chain.new
extend_tip-push_root_example =
    Refines.extend_tip-push_root 2 6 [] grown_twice
      (Refines.pushed 0 (Refines.pushed {c' = grown_down} 1 Refines.alone refl) refl)
      (λ e. omega (arith, e)) refl

get_locator_heights-IsDescent_example :
    Locator.IsDescent 21 (Requests.get_locator_heights 20)
    × (get_elem? (Requests.get_locator_heights 20) 0 ≡ some 20)
get_locator_heights-IsDescent_example = Locator.get_locator_heights-IsDescent 20 (omega arith)

-- Ten steps of one, then steps that double.
locator_run :
    Requests.get_locator_heights 20
    ≡ 20 ∷ 19 ∷ 18 ∷ 17 ∷ 16 ∷ 15 ∷ 14 ∷ 13 ∷ 12 ∷ 11 ∷ 10 ∷ 8 ∷ 4 ∷ 0 ∷ []
unfolding Requests.get_locator_heights Requests.locator_loop ◌-ℤ◌
locator_run = refl

-- What is written to a fresh database is loaded again.
abbrev first_table : HeadersTable ℕ
first_table = (1, block 0 0 true) ∷ []

abbrev first_meta : MetaTable
first_meta = some (record { network = Network.signet; tip_block_hash = 1; scanned_height = 0 })

store_run :
    (Storage.store two_blocks first_table first_meta >>= λ r. Storage.load r.1 r.2)
    ≡ ok (record two_blocks { dirty = [] })
unfolding blocks lookup insert values Storage.store Storage.store_dirty Storage.load Storage.collect
    Storage.fill_main_chain Storage.fill_loop Headers.write Headers.resize Headers.get_header
    Metadata.get_main_tip Metadata.set_best_tip Metadata.load_metada Metadata.store_metadata
    Header.load_block_headers Header.store_raw_headers Header.store_batches Header.insert_rows
    Header.upsert
store_run = refl

store_raw_headers-eq-insert_rows_example :
    Header.store_raw_headers (block 1 1 true ∷ block 0 0 false ∷ []) first_table
    ≡ Header.insert_rows (block 1 1 true ∷ block 0 0 false ∷ []) first_table
store_raw_headers-eq-insert_rows_example =
    Batches.store_raw_headers-eq-insert_rows (block 1 1 true ∷ block 0 0 false ∷ []) first_table

-- Block 3 is a fork, whatever the fuel.
update_longest_chain-no_orphan_example :
    update_longest_chain 7 (3 ∷ []) two_blocks ≡ Sync.join_fork 3 [] two_blocks
unfolding blocks lookup
update_longest_chain-no_orphan_example = update_longest_chain-no_orphan 6 3 [] two_blocks refl

-- Genesis and block 1 are sent again: as genesis has no parent, both are put aside.
abbrev sent_again : HeadersCache ℕ
sent_again = record two_blocks { orphans = (1, 0) ∷ (2, 1) ∷ [] }

send_again_run : update_longest_chain 1 (0 ∷ 1 ∷ []) two_blocks ≡ ok sent_again
unfolding blocks lookup insert update_longest_chain Sync.stash
send_again_run = refl

sent_again-IsStuck : IsStuck 1 sent_again
unfolding blocks lookup
sent_again-IsStuck = record {
  orphan = refl;
  stored = (block 1 1 true, refl);
  parent = (block 0 0 true, refl);
}

-- Block 3 cannot be taken in any more.
update_longest_chain-IsStuck_example :
    ¬ ((s' : HeadersCache ℕ) × (update_longest_chain 9 (3 ∷ []) sent_again ≡ ok s'))
unfolding blocks lookup
update_longest_chain-IsStuck_example =
    update_longest_chain-IsStuck 9 1 3 [] sent_again sent_again-IsStuck (block 1 1 true, refl)

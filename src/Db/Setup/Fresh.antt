-- ===== src/Db/Setup/Fresh.antt =====
-- What the set-up makes of a new database, and of one that was set up before
-- (vault-indexer/src/db/mod.rs).
use mutinynet_indexer.Common.{
  ℕ, ◌≡◌, ◌≢◌, refl, sym, ap, ◌∙◌, Bool, true, false, some, [], ◌∷◌, ◌==◌, arith, if◌then◌else◌,
}
use mutinynet_indexer.Common.Dict.{lookup, insert, values}
use mutinynet_indexer.Cache.Block.{BlockHeader, block_hash, prev_blockhash, zero_hash}
use mutinynet_indexer.Cache.Error as Cache
use mutinynet_indexer.Cache.Headers.Genesis.{genesis_cache, genesis_record, genesis-IsValid}
use mutinynet_indexer.Cache.Headers.Storage.{load, collect}
use mutinynet_indexer.Cache.Headers.Storage.Fill.{fill_main_chain-restores}
use mutinynet_indexer.Db.Error.{ok, err, database_network_mismatch}
use mutinynet_indexer.Db.Header.{load_block_header, load_block_headers, insert_rows, upsert}
use mutinynet_indexer.Db.Header.Batches.{store_raw_headers-eq-insert_rows}
use mutinynet_indexer.Db.Metadata.{
  DbMetadata, load_metada, has_metadata, store_metadata, get_network, get_main_tip,
  set_scanned_height,
}
use mutinynet_indexer.Db.Setup.{
  Database, Genesis, empty_database, add_genesis, add_metadata, check_network, reset_scan,
  initialize_db,
}
use mutinynet_indexer.Db.Vault.{drop_vaults, drop_unit_index}
use mutinynet_indexer.Network.{
  Network, bitcoin, testnet, testnet4, signet, mutinynet, regtest, is_same, discriminant,
}

-- A network is the same as itself, and as no other.
pub is_same_refl : (n : Network) → is_same n n ≡ true
is_same_refl n = ground arith

abbrev network_at : ℕ → Network
network_at n =
    if n == 0
    then bitcoin
    else if n == 1
    then testnet
    else if n == 2
    then testnet4
    else if n == 3
    then signet
    else if n == 4
    then mutinynet
    else regtest

network_at-discriminant : (n : Network) → network_at (discriminant n) ≡ n
network_at-discriminant bitcoin = refl
network_at-discriminant testnet = refl
network_at-discriminant testnet4 = refl
network_at-discriminant signet = refl
network_at-discriminant mutinynet = refl
network_at-discriminant regtest = refl

is_same-ne : (m n : Network) → m ≢ n → is_same m n ≡ false
is_same-ne m n ne =
    let apart : discriminant m ≢ discriminant n =
      λ e. ne (sym (network_at-discriminant m) ∙ ap network_at e ∙ network_at-discriminant n) in
    ground (arith, apart)

-- The metadata of a fresh database.
abbrev pub fresh_metadata : Network → ℕ → ℕ → DbMetadata
fresh_metadata network tip start_height = record {
  network = network;
  tip_block_hash = tip;
  scanned_height = start_height;
}

module _ {H : Type 0} ⦃b : BlockHeader H⦄ ⦃g : Genesis H⦄ where
  abbrev pub fresh_database : Network → ℕ → Database H
  fresh_database network start_height = record {
    headers =
        (block_hash (g.genesis_header network), genesis_record (g.genesis_header network)) ∷ [];
    metadata = some (fresh_metadata network (block_hash (g.genesis_header network)) start_height);
    vaults = record { vaults = []; transactions = []; transactions_runes = [] };
  }

  add_genesis-empty : (h : H) → add_genesis h [] ≡ (block_hash h, genesis_record h) ∷ []
  unfolding add_genesis load_block_header lookup insert_rows upsert insert
  add_genesis-empty h = store_raw_headers-eq-insert_rows (genesis_record h ∷ []) []

  pub initialize_db-fresh :
      (network : Network) (start_height : ℕ) (rescan : Bool)
      → initialize_db network start_height rescan empty_database
        ≡ ok (fresh_database network start_height)
  unfolding initialize_db add_metadata has_metadata store_metadata reset_scan set_scanned_height
      load_metada drop_vaults drop_unit_index
  initialize_db-fresh network start_height false =
      ap (λ headers. ok (record (fresh_database network start_height) { headers = headers }))
        (add_genesis-empty (g.genesis_header network))
  initialize_db-fresh network start_height true =
      ap (λ headers. ok (record (fresh_database network start_height) { headers = headers }))
        (add_genesis-empty (g.genesis_header network))

  -- The cache that is loaded from a new database holds the genesis header alone.
  pub load-fresh :
      (network : Network) (start_height : ℕ)
      → prev_blockhash (g.genesis_header network) ≡ zero_hash
      → load
          (fresh_database network start_height).headers
          (fresh_database network start_height).metadata
        ≡ Cache.ok (genesis_cache (g.genesis_header network))
  unfolding load collect load_block_headers get_main_tip load_metada values insert
  load-fresh network start_height bottom =
      fill_main_chain-restores (genesis_cache (g.genesis_header network))
        (genesis-IsValid (g.genesis_header network) bottom)

  -- A database of another network is refused, whatever else is in it.
  pub initialize_db-mismatch :
      (network : Network) (start_height : ℕ) (rescan : Bool) (db : Database H) (m : DbMetadata)
      → db.metadata ≡ some m
      → m.network ≢ network
      → initialize_db network start_height rescan db
        ≡ err (database_network_mismatch m.network network)
  unfolding initialize_db add_metadata has_metadata check_network get_network load_metada
  initialize_db-mismatch network start_height rescan db m found other =
      let off : is_same network m.network ≡ false =
        is_same-ne network m.network (λ e. other (sym e)) in
      rw (found, off) refl

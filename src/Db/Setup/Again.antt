-- ===== src/Db/Setup/Again.antt =====
-- Setting up a database that was set up before (vault-indexer/src/db/mod.rs).
use mathlib.Core.Path.{subst}
use mutinynet_indexer.Common.{
  ℕ, ◌≡◌, refl, sym, ap, ◌∙◌, Bool, true, false, none, some, [], ◌∷◌, inl, inr, Option-cases,
}
use mutinynet_indexer.Common.Dict.{lookup, insert, lookup-insert_self}
use mutinynet_indexer.Cache.Block.{BlockHeader, block_hash}
use mutinynet_indexer.Cache.Headers.Genesis.{genesis_record}
use mutinynet_indexer.Db.Error.{
  Error, ok, ok-injective, >>=-eq-ok, guard, database_network_mismatch,
}
use mutinynet_indexer.Db.Header.{HeaderRecord, HeadersTable, load_block_header, insert_rows, upsert}
use mutinynet_indexer.Db.Header.Batches.{store_raw_headers-eq-insert_rows}
use mutinynet_indexer.Db.Metadata.{
  DbMetadata, MetaTable, load_metada, has_metadata, store_metadata, get_network, set_scanned_height,
}
use mutinynet_indexer.Db.Setup.{
  Database, Genesis, add_genesis, add_metadata, check_network, reset_scan, initialize_db,
}
use mutinynet_indexer.Db.Vault.{drop_vaults, drop_unit_index}
use mutinynet_indexer.Network.{Network, is_same}
use mutinynet_indexer.Db.Setup.Fresh.{is_same_refl, fresh_metadata}

guard-true : (t : Bool) (e : Error) {u : Unit {0}} → guard t e ≡ ok u → t ≡ true
guard-true true e h = refl
guard-true false e h = cc

-- The table is set up for the network.
abbrev pub IsFor : Network → MetaTable → Type 0
IsFor network table = (m : DbMetadata) × (table ≡ some m) × (is_same network m.network ≡ true)

add_metadata-IsFor :
    (network : Network) (tip start_height : ℕ) (table : MetaTable) {table' : MetaTable}
    → add_metadata network tip start_height table ≡ ok table'
    → IsFor network table'
unfolding add_metadata has_metadata store_metadata check_network get_network load_metada
add_metadata-IsFor network tip start_height none h =
    (fresh_metadata network tip start_height, sym (ok-injective h), is_same_refl network)
add_metadata-IsFor network tip start_height (some m) h =
    let (_, same, last) =
      >>=-eq-ok (guard (is_same network m.network) (database_network_mismatch m.network network))
        (λ _. ok (some m)) h in
    (m, sym (ok-injective last), guard-true (is_same network m.network) _ same)

pub check_network-IsFor :
    (network : Network) (tip start_height : ℕ) (table : MetaTable)
    → IsFor network table
    → add_metadata network tip start_height table ≡ ok table
unfolding add_metadata has_metadata check_network get_network load_metada
check_network-IsFor network tip start_height table (m, found, same) = rw (found, same) refl

module _ {H : Type 0} ⦃b : BlockHeader H⦄ ⦃g : Genesis H⦄ where
  pub add_genesis-there :
      (h : H) (table : HeadersTable H) {r : HeaderRecord H}
      → lookup (block_hash h) table ≡ some r
      → add_genesis h table ≡ table
  unfolding add_genesis load_block_header
  add_genesis-there h table found = rw (add_genesis, found) refl

  add_genesis-missing :
      (h : H) (table : HeadersTable H)
      → lookup (block_hash h) table ≡ none
      → add_genesis h table ≡ insert (block_hash h) (genesis_record h) table
  unfolding add_genesis load_block_header insert_rows upsert
  add_genesis-missing h table gone =
      rw (add_genesis, gone)
        (store_raw_headers-eq-insert_rows (genesis_record h ∷ []) table
          ∙ rw (insert_rows, upsert, gone) refl)

  add_genesis-twice :
      (h : H) (table : HeadersTable H) → add_genesis h (add_genesis h table) ≡ add_genesis h table
  add_genesis-twice h table = elim (Option-cases (lookup (block_hash h) table)) [
    | inl gone ↦
        (let added = add_genesis-missing h table gone in
          rw added (
            add_genesis-there h (insert (block_hash h) (genesis_record h) table)
              (lookup-insert_self (block_hash h) (genesis_record h) table)))
    | inr (r, found) ↦ ap (add_genesis h) (add_genesis-there h table found)
  ]

  reset_scan-IsFor :
      (network : Network) (rescan : Bool) (start_height : ℕ) (db : Database H) {db' : Database H}
      → IsFor network db.metadata
      → reset_scan rescan start_height db ≡ ok db'
      → IsFor network db'.metadata × (db'.headers ≡ db.headers)
  unfolding reset_scan set_scanned_height load_metada store_metadata
  reset_scan-IsFor network false start_height db k h = (
    subst (λ d. IsFor network d.metadata) (ok-injective h) k,
    ap (λ d. d.headers) (sym (ok-injective h)),
  )
  reset_scan-IsFor network true start_height db k h =
      let (m, found, same) = k in
      let (metadata, ran, last) =
        >>=-eq-ok (set_scanned_height start_height db.metadata)
          (λ metadata.
            ok
              (record db { vaults = drop_unit_index (drop_vaults db.vaults); metadata = metadata }))
          h in
      let kept : set_scanned_height start_height db.metadata
          ≡ ok (some (record m { scanned_height = start_height })) =
        ap (set_scanned_height start_height) found in
      let now : some (record m { scanned_height = start_height }) ≡ metadata =
        ok-injective (sym kept ∙ ran) in
      let made = ok-injective last in
      (
        (
          record m { scanned_height = start_height },
          ap (λ d. d.metadata) (sym made) ∙ sym now,
          same,
        ),
        ap (λ d. d.headers) (sym made),
      )

  -- Setting up once more, without a rescan, changes nothing, whatever start height is given.
  pub initialize_db-twice :
      (network : Network) (start_height later : ℕ) (rescan : Bool) (db db' : Database H)
      → initialize_db network start_height rescan db ≡ ok db'
      → initialize_db network later false db' ≡ ok db'
  unfolding initialize_db
  initialize_db-twice network start_height later rescan db db' h =
      let genesis : H = g.genesis_header network in
      let (metadata, ran, rest) =
        >>=-eq-ok (add_metadata network (block_hash genesis) start_height db.metadata)
          (λ metadata.
            reset_scan rescan start_height
              (record db { headers = add_genesis genesis db.headers; metadata = metadata }))
          h in
      let (for_it, headers) =
        reset_scan-IsFor network rescan start_height _
          (add_metadata-IsFor network (block_hash genesis) start_height db.metadata ran) rest in
      let stays : add_genesis genesis db'.headers ≡ db'.headers =
        ap (add_genesis genesis) headers ∙ add_genesis-twice genesis db.headers ∙ sym headers in
      rw (stays, check_network-IsFor network (block_hash genesis) later db'.metadata for_it) refl

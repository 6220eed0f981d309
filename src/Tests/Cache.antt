-- ===== src/Tests/Cache.antt =====
-- Caches of a few headers (vault-indexer/src/cache/headers.rs).
use mutinynet_indexer.Common.{
  ℕ, zero, suc, ◌+◌, ◌≡◌, ◌≢◌, refl, Bool, true, false, some, inl, inr, [], ◌∷◌, ◌++◌, arith, ◌==◌,
  if◌then◌else◌, get_elem?,
}
use mutinynet_indexer.Common.Dict.{lookup, insert, erase, values}
use mutinynet_indexer.Cache.Block.{BlockHeader, zero_hash}
use mutinynet_indexer.Cache.Error.{ok, err, missing_header, out_of_fuel}
use mutinynet_indexer.Cache.Chain
use mutinynet_indexer.Cache.Headers
use mutinynet_indexer.Cache.Headers.{HeadersCache}
use mutinynet_indexer.Cache.Headers.Sync
use mutinynet_indexer.Cache.Headers.Outcomes
use mutinynet_indexer.Cache.Headers.Outcomes.{extend_main-appends}
use mutinynet_indexer.Cache.Headers.Shelve.{AreStored}
use mutinynet_indexer.Cache.Headers.Fork.{join_fork-heavier, join_fork-lighter, join_fork-off_main}
use mutinynet_indexer.Cache.Headers.Update.{join_fork-stale}
use mutinynet_indexer.Cache.Headers.Walk.{get_chain_until-fuel}
use mutinynet_indexer.Cache.Headers.Grow.{EndsAt}
use mutinynet_indexer.Cache.Headers.Reorg.{IsOnMain}
use mutinynet_indexer.Cache.Headers.Sync.{update_longest_chain}
use mutinynet_indexer.Cache.Headers.Genesis.{genesis_cache, genesis-IsValid}
use mutinynet_indexer.Cache.Headers.Invariant.{IsValid}
use mutinynet_indexer.Cache.Headers.Orphans.{update_longest_chain-IsValid}
use mutinynet_indexer.Db.Header.{HeaderRecord}

some-injective : {a c : ℕ} → some a ≡ some c → a ≡ c
some-injective e = cc

-- Block 0 is genesis, 1 and 2 follow it, 3 is a rival of 2, 4 one of 1, 5 follows 4, 6 follows 2.
abbrev pub parent_of : ℕ → ℕ
parent_of n =
    if n == 0
    then 0
    else if n == 1
    then 1
    else if n == 2
    then 2
    else if n == 3
    then 2
    else if n == 4
    then 1
    else if n == 6
    then 3
    else 5

pub suc_ne_zero : (h : ℕ) → suc h ≢ 0
suc_ne_zero h e = absurd (omega arith)

pub suc_injective : (g h : ℕ) → suc g ≡ suc h → g ≡ h
suc_injective g h e = omega arith

instance unfoldable pub blocks : BlockHeader ℕ
blocks = record {
  block_hash = suc;
  prev_blockhash = parent_of;
  work = λ _. 1;
  hash_ne_zero = suc_ne_zero;
  hash_injective = suc_injective;
}

abbrev pub block : ℕ → ℕ → Bool → HeaderRecord ℕ
block n height in_longest = record { header = n; height = height; in_longest = in_longest }

abbrev pub genesis : HeadersCache ℕ
genesis = genesis_cache 0

genesis_block-IsValid : IsValid genesis
unfolding blocks
genesis_block-IsValid = genesis-IsValid 0 refl

-- Blocks 1 and 2 have arrived.
abbrev pub two_blocks : HeadersCache ℕ
two_blocks = record {
  headers = (1, block 0 0 true) ∷ (2, block 1 1 true) ∷ (3, block 2 2 true) ∷ [];
  best_tip = 3;
  height = 2;
  main_chain = 1 ∷ 2 ∷ 3 ∷ [];
  dirty = 1 ∷ 2 ∷ 3 ∷ [];
  orphans = [];
}

grow_run : update_longest_chain 2 (1 ∷ 2 ∷ []) genesis ≡ ok two_blocks
unfolding blocks lookup insert values erase update_longest_chain Sync.extend_main Sync.join_fork
    Sync.process_orphans Headers.store_active Headers.store_inactive Headers.activate_one
    Headers.shelve_one Headers.write Headers.resize Headers.inactivate Headers.truncate
    Headers.get_chain_until Chain.root_hash Chain.from_headers Chain.headers Chain.len
    Chain.tip_hash Chain.new Chain.push_root Chain.extend_tip Chain.total_work
grow_run = refl

pub two_blocks-IsValid : IsValid two_blocks
unfolding blocks lookup
two_blocks-IsValid =
    update_longest_chain-IsValid 2 1 (2 ∷ []) genesis two_blocks genesis_block-IsValid
      (refl, (refl, tt)) (inl (refl, ((λ e. omega (arith, e)), tt), (refl, tt, tt))) grow_run

-- Block 3 takes the place of block 2, whose mark stays.
abbrev pub reorganized : HeadersCache ℕ
reorganized = record {
  headers =
      (1, block 0 0 true) ∷ (2, block 1 1 true) ∷ (3, block 2 2 true) ∷ (4, block 3 2 true) ∷ [];
  best_tip = 4;
  height = 2;
  main_chain = 1 ∷ 2 ∷ 4 ∷ [];
  dirty = 1 ∷ 2 ∷ 3 ∷ 2 ∷ 4 ∷ [];
  orphans = [];
}

reorganize_run : update_longest_chain 2 (3 ∷ []) two_blocks ≡ ok reorganized
unfolding blocks lookup insert values erase update_longest_chain Sync.extend_main Sync.join_fork
    Sync.process_orphans Headers.store_active Headers.store_inactive Headers.activate_one
    Headers.shelve_one Headers.write Headers.resize Headers.inactivate Headers.truncate
    Headers.get_chain_until Chain.root_hash Chain.from_headers Chain.headers Chain.len
    Chain.tip_hash Chain.new Chain.push_root Chain.extend_tip Chain.total_work
reorganize_run = refl

pub reorganized-IsValid : IsValid reorganized
reorganized-IsValid =
    update_longest_chain-IsValid 2 3 [] two_blocks reorganized two_blocks-IsValid (refl, tt)
      (inr refl) reorganize_run

-- Block 4 is kept beside the main chain.
abbrev shelved : HeadersCache ℕ
shelved = record {
  headers =
      (1, block 0 0 true) ∷ (2, block 1 1 true) ∷ (3, block 2 2 true) ∷ (5, block 4 1 false) ∷ [];
  best_tip = 3;
  height = 2;
  main_chain = 1 ∷ 2 ∷ 3 ∷ [];
  dirty = 1 ∷ 2 ∷ 3 ∷ 5 ∷ [];
  orphans = [];
}

shelve_run : update_longest_chain 2 (4 ∷ []) two_blocks ≡ ok shelved
unfolding blocks lookup insert values erase update_longest_chain Sync.extend_main Sync.join_fork
    Sync.process_orphans Headers.store_active Headers.store_inactive Headers.activate_one
    Headers.shelve_one Headers.write Headers.resize Headers.inactivate Headers.truncate
    Headers.get_chain_until Chain.root_hash Chain.from_headers Chain.headers Chain.len
    Chain.tip_hash Chain.new Chain.push_root Chain.extend_tip Chain.total_work
shelve_run = refl

shelved-IsValid : IsValid shelved
shelved-IsValid =
    update_longest_chain-IsValid 2 4 [] two_blocks shelved two_blocks-IsValid (refl, tt) (inr refl)
      shelve_run

update_longest_chain-IsValid_example : IsValid shelved
update_longest_chain-IsValid_example =
    update_longest_chain-IsValid 2 4 [] two_blocks shelved two_blocks-IsValid (refl, tt) (inr refl)
      shelve_run

extend_main-appends_example :
    (s' : HeadersCache ℕ) × (Sync.extend_main (1 ∷ 2 ∷ []) genesis ≡ ok s')
    × IsValid s'
    × (s'.main_chain ≡ (1 ∷ []) ++ (2 ∷ 3 ∷ []))
    × (s'.height ≡ 0 + 2)
unfolding blocks
extend_main-appends_example =
    extend_main-appends (1 ∷ 2 ∷ []) genesis genesis_block-IsValid (refl, (refl, tt))

-- Block 1 in the chain of two blocks.
block_1-IsOnMain : IsOnMain two_blocks 1 (block 1 1 true)
unfolding lookup blocks
block_1-IsOnMain = record { stored = refl; at = refl; height = refl; flagged = refl }

genesis-IsOnMain : IsOnMain two_blocks 0 (block 0 0 true)
unfolding lookup blocks
genesis-IsOnMain = record { stored = refl; at = refl; height = refl; flagged = refl }

join_fork-heavier_example :
    (s' : HeadersCache ℕ) × (Sync.join_fork 3 [] two_blocks ≡ ok s')
    × IsValid s'
    × (s'.main_chain ≡ 1 ∷ 2 ∷ 4 ∷ [])
    × (s'.best_tip ≡ 4)
    × (s'.height ≡ 1 + 1)
unfolding blocks lookup Outcomes.stored_work
join_fork-heavier_example =
    join_fork-heavier two_blocks 1 (block 1 1 true) 3 [] two_blocks-IsValid block_1-IsOnMain
      (omega arith) (refl, tt) (omega arith)

join_fork-lighter_example :
    (s' : HeadersCache ℕ) × (Sync.join_fork 4 [] two_blocks ≡ ok s')
    × IsValid s'
    × AreStored s'.headers (4 ∷ [])
    × ((h : ℕ) (r : HeaderRecord ℕ)
        → lookup h two_blocks.headers ≡ some r
        → lookup h s'.headers ≡ some r)
    × (s'.main_chain ≡ 1 ∷ 2 ∷ 3 ∷ [])
    × (s'.best_tip ≡ 3)
    × (s'.height ≡ 2)
unfolding blocks lookup Outcomes.stored_work
join_fork-lighter_example =
    join_fork-lighter two_blocks 0 (block 0 0 true) 4 [] two_blocks-IsValid genesis-IsOnMain
      (omega arith) (refl, tt) (inr refl) (omega arith)

join_fork-off_main_example : Sync.join_fork 5 [] shelved ≢ ok shelved
unfolding lookup blocks
join_fork-off_main_example =
    join_fork-off_main shelved 5 [] (block 4 1 false) shelved-IsValid refl refl shelved

-- The hash of block 2 is no longer on the main chain.
block_2_off : (k : ℕ) → get_elem? reorganized.main_chain k ≢ some 3
block_2_off zero e = omega (arith, some-injective e)
block_2_off (suc zero) e = omega (arith, some-injective e)
block_2_off (suc (suc zero)) e = omega (arith, some-injective e)
block_2_off (suc (suc (suc k))) e = cc

join_fork-stale_example : Sync.join_fork 6 [] reorganized ≡ err (missing_header zero_hash)
unfolding lookup blocks
join_fork-stale_example =
    join_fork-stale reorganized (block 2 2 true) 6 [] reorganized-IsValid refl refl refl block_2_off

get_chain_until-fuel_example :
    Headers.get_chain_until 3 (λ r. r.in_longest) two_blocks ≢ err out_of_fuel
get_chain_until-fuel_example =
    get_chain_until-fuel 3 (λ r. r.in_longest) two_blocks two_blocks-IsValid.forest

genesis-EndsAt : EndsAt genesis (block 0 0 true)
unfolding lookup blocks
genesis-EndsAt = record {
  forest = genesis_block-IsValid.forest;
  stored = refl;
  flagged = refl;
  path = genesis_block-IsValid.path;
  size = refl;
  last = refl;
}

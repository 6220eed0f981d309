-- ===== src/Cache/Headers/Genesis.antt =====
-- The cache of a fresh database, which holds the genesis header alone
-- (vault-indexer/src/cache/headers.rs).
use mathlib.Core.Path.{subst}
use mutinynet_indexer.Common.{ℕ, ◌≡◌, refl, true, some, inl, [], ◌∷◌, arith}
use mutinynet_indexer.Common.Dict.{lookup}
use mutinynet_indexer.Cache.Block.{BlockHeader, block_hash, prev_blockhash, zero_hash}
use mutinynet_indexer.Cache.Headers.{HeadersCache}
use mutinynet_indexer.Cache.Headers.Invariant.{IsValid, Parented}
use mutinynet_indexer.Db.Header.{HeaderRecord}

module _ {H : Type 0} ⦃b : BlockHeader H⦄ where
  abbrev pub genesis_record : H → HeaderRecord H
  genesis_record g = record { header = g; height = 0; in_longest = true }

  abbrev pub genesis_cache : H → HeadersCache H
  genesis_cache g = record {
    headers = (block_hash g, genesis_record g) ∷ [];
    best_tip = block_hash g;
    height = 0;
    main_chain = block_hash g ∷ [];
    dirty = [];
    orphans = [];
  }

  genesis-lookup :
      (g : H) (h : ℕ) (r : HeaderRecord H)
      → lookup h (genesis_cache g).headers ≡ some r
      → (block_hash g ≡ h) × (genesis_record g ≡ r)
  unfolding lookup
  genesis-lookup g h r e = ground arith

  pub genesis-found :
      (g : H) → lookup (block_hash g) (genesis_cache g).headers ≡ some (genesis_record g)
  unfolding lookup
  genesis-found g = ground arith

  pub genesis-IsValid : (g : H) → prev_blockhash g ≡ zero_hash → IsValid (genesis_cache g)
  genesis-IsValid g bottom = record {
    forest = record {
      keyed = λ h r e.
          let (at, same) = genesis-lookup g h r e in
          subst (λ (q : HeaderRecord H). block_hash q.header ≡ h) same at;
      parented = λ h r e.
          subst (Parented (genesis_cache g).headers) (genesis-lookup g h r e).1
            (inl (refl, bottom));
    };
    path = ((genesis_record g, genesis-found g, refl, bottom, refl), tt);
    size = refl;
    tip = refl;
  }

-- ===== src/Cache/Headers/Forest.antt =====
-- What keeps the stored headers a forest.
use mutinynet_indexer.Common.{ℕ, suc, ◌≡◌, refl, ◌∙◌, sym, inl, inr, some, arith}
use mutinynet_indexer.Common.Dict.{
  Dict, lookup, insert, lookup-insert_cases, lookup-insert_self, lookup-insert_ne,
}
use mathlib.Core.Path.{subst}
use native.Mathlib.Decide.{ℕ_discrete}
use mutinynet_indexer.Cache.Block.{BlockHeader, block_hash, prev_blockhash}
use mutinynet_indexer.Cache.Headers.Invariant.{IsForest, Parented}
use mutinynet_indexer.Db.Header.{HeaderRecord}

-- Every record of the first is in the second, at its height.
pub record KeepsHeights {H : Type 0} (d d' : Dict (HeaderRecord H)) : Type 0 where
  pub kept :
      (h : ℕ) (r : HeaderRecord H)
      → lookup h d ≡ some r
      → (r' : HeaderRecord H) × (lookup h d' ≡ some r') × (r'.height ≡ r.height)

module _ {H : Type 0} ⦃b : BlockHeader H⦄ where
  pub Parented-mono :
      (d d' : Dict (HeaderRecord H)) (r : HeaderRecord H)
      → KeepsHeights d d'
      → Parented d r
      → Parented d' r
  Parented-mono d d' r keeps (inl genesis) = inl genesis
  Parented-mono d d' r keeps (inr (q, found, above)) =
      let (q', found', same) = keeps.kept (prev_blockhash r.header) q found in
      inr (q', found', omega arith)

  pub KeepsHeights-insert :
      (k : ℕ) (r : HeaderRecord H) (d : Dict (HeaderRecord H))
      → ((old : HeaderRecord H) → lookup k d ≡ some old → r.height ≡ old.height)
      → KeepsHeights d (insert k r d)
  KeepsHeights-insert k r d same = record {
    kept = λ h q found. elim (ℕ_discrete k h) [
      | yes e ↦ (r, rw (← e) (lookup-insert_self k r d), same q (rw e found))
      | no ne ↦ (q, rw (lookup-insert_ne h k r d ne) found, refl)
    ];
  }

  -- A record under its own hash, with a parent, at the height of the one that it replaces.
  pub IsForest-insert :
      (k : ℕ) (r : HeaderRecord H) (d : Dict (HeaderRecord H))
      → block_hash r.header ≡ k
      → Parented d r
      → ((old : HeaderRecord H) → lookup k d ≡ some old → r.height ≡ old.height)
      → IsForest d
      → IsForest (insert k r d)
  IsForest-insert k r d key parent same f =
      let keeps : KeepsHeights d (insert k r d) = KeepsHeights-insert k r d same in
      record {
        keyed = λ h q found. elim (lookup-insert_cases h k r d found) [
          | inl (e, this) ↦ rw (← this) (key ∙ e)
          | inr (ne, old) ↦ f.keyed h q old
        ];
        parented = λ h q found. elim (lookup-insert_cases h k r d found) [
          | inl (e, this) ↦ subst (Parented (insert k r d)) this (Parented-mono d _ r keeps parent)
          | inr (ne, old) ↦ Parented-mono d (insert k r d) q keeps (f.parented h q old)
        ];
      }

  -- The parent of a record that is no genesis: one height lower.
  pub height_of_parent :
      (d : Dict (HeaderRecord H)) (r q : HeaderRecord H) (h : H)
      → Parented d r
      → prev_blockhash r.header ≡ block_hash h
      → lookup (block_hash h) d ≡ some q
      → r.height ≡ suc q.height
  height_of_parent d r q h (inl (at, zero)) e found = absurd (b.hash_ne_zero h (sym e ∙ zero))
  height_of_parent d r q h (inr (q', found', above)) e found = ground (arith, e)

-- ===== src/Cache/Headers/Storage/Fill.antt =====
-- `fill_main_chain` (vault-indexer/src/cache/headers.rs) finds the main chain again.
use mutinynet_indexer.Common.{
  ℕ, zero, suc, ◌+◌, ◌-◌, ◌<◌, ◌≡◌, refl, sym, ap, ◌∙◌, true, false, some, List, [], ◌∷◌, ◌++◌,
  length, take, take-all, drop, drop-all, drop-eq-cons, replicate, length-replicate, length-append,
  set, set-append, get_elem?, lt→ltb, ◌==◌, arith,
}
use mathlib.Core.List.{append-nil}
use mutinynet_indexer.Common.Dict.{Dict, lookup}
use mutinynet_indexer.Cache.Block.{BlockHeader, block_hash, prev_blockhash, zero_hash}
use mutinynet_indexer.Cache.Error.{ok, ◌>>=◌}
use mutinynet_indexer.Cache.Headers.{HeadersCache, write, resize, get_header}
use mutinynet_indexer.Cache.Headers.Invariant.{IsForest, IsPath, IsValid}
use mutinynet_indexer.Cache.Headers.Path.{path-entry, path-link}
use mutinynet_indexer.Cache.Headers.Storage.{fill_loop, fill_main_chain}
use mutinynet_indexer.Db.Header.{HeaderRecord}

replicate-append : (n a : ℕ) (ys : List ℕ) → replicate (suc n) a ++ ys ≡ replicate n a ++ (a ∷ ys)
replicate-append zero a ys = refl
replicate-append (suc n) a ys = ap (λ l. a ∷ l) (replicate-append n a ys)

-- The main chain as far as the loop has filled it, from the given height on.
abbrev filled_from : ℕ → List ℕ → List ℕ
filled_from n mc = replicate n 0 ++ drop n mc

-- A write one lower fills one entry more.
write-filled_from :
    (n x : ℕ) (mc : List ℕ)
    → get_elem? mc n ≡ some x
    → write n x (filled_from (suc n) mc) ≡ ok (filled_from n mc)
unfolding write
write-filled_from n x mc e =
    let long : n < length (filled_from (suc n) mc) = omega (
      arith,
      length-append (replicate (suc n) 0) (drop (suc n) mc),
      length-replicate {A = ℕ} (suc n) 0,
    ) in
    rw (lt→ltb n (length (filled_from (suc n) mc)) long) (
      ap ok (
        ap (λ l. set l n x) (replicate-append n 0 (drop (suc n) mc))
        ∙ set-append (replicate n 0) 0 (drop (suc n) mc) n x (length-replicate n 0)
        ∙ ap (λ l. replicate n 0 ++ l) (sym (drop-eq-cons n mc e))))

suc-ne-zero : (n : ℕ) → (suc n == 0) ≡ false
suc-ne-zero n = ground arith

suc-eq-next : (n : ℕ) → (suc n == n + 1) ≡ true
suc-eq-next n = ground arith

start :
    (n : ℕ) (mc : List ℕ) → length mc ≡ suc n → resize (n + 1) zero_hash [] ≡ filled_from (suc n) mc
unfolding resize
start n mc size =
    let none_taken : take {A = ℕ} (n + 1) [] ≡ [] = take-all (n + 1) [] (omega arith) in
    let count : n + 1 - 0 ≡ suc n = omega arith in
    rw (none_taken, count, drop-all (suc n) mc (omega arith))
      (sym (append-nil (replicate (suc n) 0)))

module _ {H : Type 0} ⦃b : BlockHeader H⦄ where
  fill_loop-restores :
      (n fuel : ℕ) (d : Dict (HeaderRecord H)) (mc : List ℕ) (cur : HeaderRecord H)
      → IsForest d
      → IsPath d zero_hash 0 mc
      → get_elem? mc n ≡ some (block_hash cur.header)
      → lookup (block_hash cur.header) d ≡ some cur
      → cur.height ≡ n
      → n < fuel
      → fill_loop fuel d cur (filled_from (suc n) mc) ≡ ok mc
  unfolding fill_loop
  fill_loop-restores n zero d mc cur f w at found height enough = elim enough [ ]
  fill_loop-restores zero (suc fuel) d mc cur f w at found height enough =
      rw (height, write-filled_from 0 (block_hash cur.header) mc at) refl
  fill_loop-restores (suc n) (suc fuel) d mc cur f w at found height enough =
      let below : get_elem? mc n ≡ some (prev_blockhash cur.header) =
        path-link d zero_hash 0 mc n w at found in
      let (next, stored, level, flag) = path-entry d zero_hash 0 mc n w below in
      let key : block_hash next.header ≡ prev_blockhash cur.header =
        f.keyed (prev_blockhash cur.header) next stored in
      let above : next.height ≡ n = omega arith in
      rw
        (
          height,
          write-filled_from (suc n) (block_hash cur.header) mc at,
          stored,
          above,
          suc-ne-zero n,
          suc-eq-next n,
        )
        (fill_loop-restores n fuel d mc next f w (rw key below) (rw key stored) above (omega arith))

  -- Of a well-formed cache the height and the main chain can be left out: they are found again from
  -- the headers and the best tip, without an error.
  pub fill_main_chain-restores :
      (s : HeadersCache H)
      → IsValid s
      → fill_main_chain (record s { height = 0; main_chain = [] }) ≡ ok s
  unfolding fill_main_chain get_header resize
  fill_main_chain-restores s v =
      let (cur, found, level, flag) =
        path-entry s.headers zero_hash 0 s.main_chain s.height v.path v.tip in
      let key : block_hash cur.header ≡ s.best_tip = v.forest.keyed s.best_tip cur found in
      let height : cur.height ≡ s.height = omega arith in
      let run : fill_loop (s.height + 1) s.headers cur (resize (s.height + 1) zero_hash [])
          ≡ ok s.main_chain =
        ap (fill_loop (s.height + 1) s.headers cur) (start s.height s.main_chain v.size)
        ∙ fill_loop-restores s.height (s.height + 1) s.headers s.main_chain cur v.forest v.path
            (rw key v.tip) (rw key found) height (omega arith) in
      rw (found, height) (ap (λ m. m >>= (λ c. ok (record s { main_chain = c }))) run)

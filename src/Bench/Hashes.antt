-- ===== src/Bench/Hashes.antt =====
-- runCSFigure1 of bench/bench_cs.go: the chameleon hashes of a file's blocks, the hash tree over
-- them, and the replacement of one block. The state is that of the two random sources; the times are
-- left out.
pub mod Outcome
use proxyot.Prelude.{
  ℕ, zero, suc, ◌+◌, ◌*◌, ◌/◌, ◌%◌, ◌==◌, ltb, Bool, Option, none, some, List, [], ◌∷◌, ◌++◌,
  get_elem?, replicate, if◌then◌else◌,
}
use proxyot.Prelude.Result.{
  Result, ok, err, panic, read_error, bad_argument, divide_by_zero, index_out_of_range,
  invalid_collision, require, deref, ◌>>=◌, ◌>>◌,
}
use proxyot.BigInt.{ℤ, pos, negsuc}
use proxyot.Rand.{Reader}
use proxyot.Bn256.{Bn256}
use proxyot.Crypto.{Bytes, Crypto, hash_size}
use proxyot.Curve.{Point, type_g1, type_g2, new_random_point}
use proxyot.MathRand.{MathRand, int63n}
use proxyot.Chash.{ChameleonHash, equals, compute_hash, compute_collision}
use proxyot.Merkle.{Tree, new_tree}
use proxyot.Fileobj.{to_int64}
use proxyot.Fileobj.Mem.{MemFileObj, new, get_block}
use proxyot.Bench.Updates.{block_scalar}

-- getBlockCount(fSize, bSize), of sizes not below 0
unfoldable pub get_block_count : ℕ → ℕ → Result ℕ
get_block_count f_size b_size =
    if b_size == 0
    then panic divide_by_zero
    else ok (if ltb 0 (f_size % b_size) then f_size / b_size + 1 else f_size / b_size)

module _ (mr : MathRand) where
  -- `make([]byte, n)` and rand.Read, whose error is returned
  unfoldable pub read_bytes : ℤ → mr.Source → Result (Bytes × mr.Source)
  read_bytes (pos n) s = elim (mr.read n s) [ none ↦ err read_error | some drawn ↦ ok drawn ]
  read_bytes (negsuc n) s = panic bad_argument

  -- NewMemFileObj(fileSize, blockSize)
  unfoldable pub new_mem_file_obj : ℤ → ℕ → mr.Source → Result (MemFileObj × mr.Source)
  unfolding read_bytes
  new_mem_file_obj file_size block_size s = do
    (bytes, s') ← read_bytes file_size s
    obj ← new bytes block_size
    ok (obj, s')

module _ ⦃bn : Bn256⦄ where
  -- The loop that fills rs and Rs
  unfoldable pub random_points : ℕ → Reader → Result (List (ℤ × Point) × Reader)
  random_points zero r = ok ([], r)
  random_points (suc n) r = do
    (p, r1) ← new_random_point type_g2 r
    (ps, r2) ← random_points n r1
    ok (p ∷ ps, r2)

  -- targetM and targetCHash
  abbrev pub Target : Type 0
  Target = Option ℤ × ChameleonHash

  -- What they are before the loop
  abbrev pub no_target : Target
  no_target = (none, replicate hash_size 0)

  module _ (cr : Crypto) where
    -- The loop over the blocks from i on: the rest of cHashes, and the target's message and hash
    unfoldable pub hash_loop :
        MemFileObj
        → Point
        → ℕ
        → List (ℤ × Point)
        → ℕ
        → Target
        → Result (List ChameleonHash × Target)
    hash_loop mf y target [] i found = ok ([], found)
    hash_loop mf y target (p ∷ ps) i found = do
      bytes ← get_block mf (pos i)
      m ← block_scalar cr bytes
      ch ← compute_hash cr y p.1 m
      let found' = if i == target then (some m, ch) else found
      (rest, last) ← hash_loop mf y target ps (suc i) found'
      ok (ch ∷ rest, last)

    -- The collision that replaces the block
    unfoldable pub update_target :
        Point → ℤ → List (ℤ × Point) → ℕ → Target → Bytes → Result (Unit {0})
    update_target y x pairs target found new_block = do
      new_m ← block_scalar cr new_block
      r ← elim (get_elem? pairs target) [ none ↦ panic index_out_of_range | some p ↦ ok p.0 ]
      target_m ← deref found.0
      (new_hash, rp, big_rp) ← compute_collision cr y x r target_m new_m (pos bn.order)
      require (equals new_hash found.1) invalid_collision

    -- runCSFigure1(blockCount, blockSize)
    unfoldable pub run_cs_figure1 :
        (mr : MathRand) → ℕ → ℕ → Reader × mr.Source → Result (Reader × mr.Source)
    unfolding new_mem_file_obj read_bytes int63n random_points hash_loop update_target
    run_cs_figure1 mr block_count block_size (r, s) = do
      (mf, s1) ← new_mem_file_obj mr (to_int64 (pos (block_count * block_size))) block_size s
      (new_block, s2) ← read_bytes mr (pos block_size) s1
      (target, s3) ← int63n mr (pos block_count) s2
      ((x, y), r1) ← new_random_point type_g1 r
      (pairs, r2) ← random_points block_count r1
      (hashes, found) ← hash_loop mf y target pairs 0 no_target
      tree ← new_tree cr hashes
      update_target y x pairs target found new_block
      ok (r2, s3)

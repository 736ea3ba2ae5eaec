-- ===== src/Bench/Updates.antt =====
-- runCSFigure2 of bench/bench_cs.go: a block is replaced again and again under one chameleon hash.
-- The bytes that math/rand gives are arguments, and the times are left out.
pub mod Costs
use proxyot.Prelude.{ℕ, ◌+◌, List, [], ◌∷◌}
use proxyot.Prelude.Result.{Result, ok, err, invalid_collision, require, ◌>>=◌, ◌>>◌}
use proxyot.BigInt.{ℤ, pos, mod_int, set_bytes, ◌+ℤ◌}
use proxyot.Rand.{Reader}
use proxyot.Bn256.{Bn256}
use proxyot.Crypto.{Bytes, Crypto}
use proxyot.Curve.{Point, type_g1, type_g2, new_random_point}
use proxyot.Chash.{ChameleonHash, equals, compute_hash, compute_collision}
use proxyot.Fileobj.{to_int64}

abbrev pub metadata_size : ℕ
metadata_size = 128

module _ ⦃bn : Bn256⦄ (cr : Crypto) where
  -- The number that a block is hashed as: its digest modulo the order
  unfoldable pub block_scalar : Bytes → Result ℤ
  unfolding set_bytes mod_int
  block_scalar bytes = mod_int (pos (set_bytes (cr.sha256 bytes))) (pos bn.order)

  -- The loop over the new blocks, from a sum of costs: transCosts
  unfoldable pub update_loop :
      Point → ℤ → ℤ → ℤ → ChameleonHash → ℕ → List Bytes → ℤ → Result (List ℤ)
  unfolding block_scalar ◌+ℤ◌ to_int64
  update_loop y x r target_m target_hash block_size [] sum = ok []
  update_loop y x r target_m target_hash block_size (bytes ∷ blocks) sum = do
    new_m ← block_scalar bytes
    (new_hash, rp, big_rp) ← compute_collision cr y x r target_m new_m (pos bn.order)
    require (equals new_hash target_hash) invalid_collision
    let sum' = to_int64 (sum +ℤ to_int64 (pos (metadata_size + block_size)))
    rest ← update_loop y x r target_m target_hash block_size blocks sum'
    ok (sum' ∷ rest)

  -- runCSFigure2(updateCount, blockSize), for the first block and the new ones
  unfoldable pub run_cs_figure2 : ℕ → Bytes → List Bytes → Reader → Result (List ℤ × Reader)
  unfolding new_random_point block_scalar update_loop
  run_cs_figure2 block_size bytes blocks reader = do
    ((x, y), reader1) ← new_random_point type_g1 reader
    ((r, big_r), reader2) ← new_random_point type_g2 reader1
    target_m ← block_scalar bytes
    target_hash ← compute_hash cr y big_r target_m
    costs ← update_loop y x r target_m target_hash block_size blocks (pos 0)
    ok (costs, reader2)

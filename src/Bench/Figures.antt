-- ===== src/Bench/Figures.antt =====
-- CSFigure1 and CSFigure2 of bench/bench_cs.go: the runs for all sizes, without the times, and the costs
-- that they average. The state is that of the two random sources.
pub mod Sizes
pub mod Averages
use proxyot.Prelude.{ℕ, zero, suc, ◌*◌, List, [], ◌∷◌, ◌++◌, map, replicate}
use proxyot.Prelude.Result.{Result, ok, panic, index_out_of_range, ◌>>=◌}
use proxyot.BigInt.{ℤ, pos, ◌+ℤ◌, ◌*ℤ◌}
use proxyot.Rand.{Reader}
use proxyot.Bn256.{Bn256}
use proxyot.Crypto.{Bytes, Crypto}
use proxyot.MathRand.{MathRand}
use proxyot.Fileobj.{to_int64}
use proxyot.Bench.Operations.{repeat}
use proxyot.Bench.Hashes.{read_bytes, run_cs_figure1}
use proxyot.Bench.Updates.{run_cs_figure2}

-- type CSFigure1Result
pub record CsFigure1Result : Type 0 where
  pub file_sizes : List ℤ
  pub block_counts : List ℕ
  pub block_sizes : List ℕ

-- elementWiseAdd(s1, s2)
unfoldable pub element_wise_add : List ℤ → List ℤ → Result (List ℤ)
element_wise_add [] s2 = ok []
element_wise_add (x ∷ s1) [] = panic index_out_of_range
element_wise_add (x ∷ s1) (y ∷ s2) = do rest ← element_wise_add s1 s2; ok (to_int64 (x +ℤ y) ∷ rest)

module _ (mr : MathRand) where
  -- The loop that fills newDataBlocks
  unfoldable pub draw_blocks : ℕ → ℕ → mr.Source → Result (List Bytes × mr.Source)
  draw_blocks block_size zero s = ok ([], s)
  draw_blocks block_size (suc n) s = do
    (new_data, s1) ← read_bytes mr (pos block_size) s
    (rest, s2) ← draw_blocks block_size n s1
    ok (new_data ∷ rest, s2)

module _ ⦃bn : Bn256⦄ (cr : Crypto) (mr : MathRand) where
  module _ (rounds : ℕ) where
    -- The loop over the block sizes, for one block count
    unfoldable pub sizes_loop :
        ℕ → List ℕ → List ℤ → Reader × mr.Source → Result (List ℤ × (Reader × mr.Source))
    sizes_loop count [] file_sizes st = ok (file_sizes, st)
    sizes_loop count (b ∷ sizes) file_sizes st = do
      st1 ← repeat rounds (run_cs_figure1 cr mr count b) st
      sizes_loop count sizes (file_sizes ++ to_int64 (pos count *ℤ pos b) ∷ []) st1

    -- The loop over the block counts
    unfoldable pub counts_loop :
        List ℕ → List ℕ → List ℤ → Reader × mr.Source → Result (List ℤ × (Reader × mr.Source))
    counts_loop [] sizes file_sizes st = ok (file_sizes, st)
    counts_loop (count ∷ counts) sizes file_sizes st = do
      (file_sizes1, st1) ← sizes_loop count sizes file_sizes st
      counts_loop counts sizes file_sizes1 st1

    -- CSFigure1(rounds, blockCounts, blockSizes)
    unfoldable pub cs_figure1 :
        List ℕ → List ℕ → Reader × mr.Source → Result (CsFigure1Result × (Reader × mr.Source))
    cs_figure1 block_counts block_sizes st = do
      (file_sizes, st1) ← counts_loop block_counts block_sizes [] st
      ok (
        record { file_sizes = file_sizes; block_counts = block_counts; block_sizes = block_sizes },
        st1,
      )

  -- runCSFigure2(updateCount, blockSize), with its blocks drawn: the two sources are apart, so the
  -- bytes of math/rand stand before the points
  unfoldable pub drawn_cs_figure2 :
      ℕ → ℕ → Reader × mr.Source → Result (List ℤ × (Reader × mr.Source))
  drawn_cs_figure2 update_count block_size (r, s) = do
    (bytes, s1) ← read_bytes mr (pos block_size) s
    (blocks, s2) ← draw_blocks mr block_size update_count s1
    (costs, r1) ← run_cs_figure2 cr block_size bytes blocks r
    ok (costs, (r1, s2))

  -- The rounds of CSFigure2 for a block size: sumCosts
  unfoldable pub costs_loop :
      ℕ → ℕ → ℕ → List ℤ → Reader × mr.Source → Result (List ℤ × (Reader × mr.Source))
  costs_loop update_count block_size zero sum_costs st = ok (sum_costs, st)
  costs_loop update_count block_size (suc rounds) sum_costs st = do
    (trans_costs, st1) ← drawn_cs_figure2 update_count block_size st
    sum_costs1 ← element_wise_add sum_costs trans_costs
    costs_loop update_count block_size rounds sum_costs1 st1

  -- The sums of CSFigure2(rounds, updateCount, blockSizes), which it divides by rounds * 1024
  unfoldable pub cs_figure2_costs :
      ℕ → ℕ → List ℕ → Reader × mr.Source → Result (List (List ℤ) × (Reader × mr.Source))
  cs_figure2_costs rounds update_count [] st = ok ([], st)
  cs_figure2_costs rounds update_count (b ∷ sizes) st = do
    (sum_costs, st1) ← costs_loop update_count b rounds (replicate update_count (pos 0)) st
    (rest, st2) ← cs_figure2_costs rounds update_count sizes st1
    ok (sum_costs ∷ rest, st2)

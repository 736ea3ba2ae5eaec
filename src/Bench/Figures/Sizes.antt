-- ===== src/Bench/Figures/Sizes.antt =====
-- CSFigure1 of bench/bench_cs.go: all its runs return, and the file sizes are the products.
use proxyot.Prelude.{
  ℕ, zero, suc, ◌*◌, ◌^◌, ◌<◌, ◌≡◌, sym, ap, ap₂, List, [], ◌∷◌, ◌++◌, map, All, append-nil,
  append_assoc,
}
use proxyot.Prelude.Result.{ok}
use proxyot.BigInt.{ℤ, pos, ◌*ℤ◌}
use proxyot.Rand.{Reader}
use proxyot.Bn256.{Bn256, IsPairing}
use proxyot.Crypto.{Crypto}
use proxyot.MathRand.{MathRand, IsMathRand}
use proxyot.Fileobj.{to_int64}
use proxyot.Bench.Updates.Costs.{to_int64_small}
use proxyot.Bench.Operations.{repeat}
use proxyot.Bench.Hashes.{run_cs_figure1}
use proxyot.Bench.Hashes.Outcome.{Gives, run_cs_figure1_returns}
use proxyot.Bench.Sweeps.Values.{concat_map}
use proxyot.Bench.Figures.{sizes_loop, counts_loop, cs_figure1}

module _ ⦃bn : Bn256⦄ where
  -- What the runs draw from crypto/rand: a scalar, and one more for each block.
  abbrev pub RoundDraws : ℕ → ℕ → Reader → Reader → Type 0
  RoundDraws zero count r r' = r' ≡ r
  RoundDraws (suc n) count r r' =
      (mid : Reader) × Gives (suc count) r mid × RoundDraws n count mid r'

  abbrev pub SizeDraws : ℕ → ℕ → List ℕ → Reader → Reader → Type 0
  SizeDraws rounds count [] r r' = r' ≡ r
  SizeDraws rounds count (b ∷ sizes) r r' =
      (mid : Reader) × RoundDraws rounds count r mid × SizeDraws rounds count sizes mid r'

  abbrev pub CountDraws : ℕ → List ℕ → List ℕ → Reader → Reader → Type 0
  CountDraws rounds [] sizes r r' = r' ≡ r
  CountDraws rounds (count ∷ counts) sizes r r' =
      (mid : Reader) × SizeDraws rounds count sizes r mid × CountDraws rounds counts sizes mid r'

  -- A count and a size above 0 whose product is an int64.
  abbrev pub IsBlocking : ℕ → ℕ → Type 0
  IsBlocking count b = (0 < count) × (0 < b) × (count * b < 2 ^ 63)

  module _ (laws : IsPairing bn) (cr : Crypto) (mr : MathRand) (rand_laws : IsMathRand mr)
      (rounds : ℕ) where
    rounds_return :
        (n count b : ℕ) (r r' : Reader) (s : mr.Source)
        → IsBlocking count b
        → RoundDraws n count r r'
        → (s' : mr.Source) × (repeat n (run_cs_figure1 cr mr count b) (r, s) ≡ ok (r', s'))
    unfolding repeat
    rounds_return zero count b r r' s blocking e = (s, ap (λ (x : Reader). ok (x, s)) (sym e))
    rounds_return (suc n) count b r r' s (some_blocks, positive, fits) (mid, gives, draws) =
        let (s1, run) =
          run_cs_figure1_returns laws cr mr rand_laws count b r mid s some_blocks positive fits
            gives in
        let (s2, rest) = rounds_return n count b mid r' s1 (some_blocks, positive, fits) draws in
        (s2, rw (run, rest))

    product : (count b : ℕ) → count * b < 2 ^ 63 → to_int64 (pos count *ℤ pos b) ≡ pos (count * b)
    unfolding ◌*ℤ◌
    product count b fits = to_int64_small (count * b) fits

    sizes_return :
        (count : ℕ) (sizes : List ℕ) (acc : List ℤ) (r r' : Reader) (s : mr.Source)
        → All (IsBlocking count) sizes
        → SizeDraws rounds count sizes r r'
        → (s' : mr.Source) × (sizes_loop cr mr rounds count sizes acc (r, s)
            ≡ ok (acc ++ map (λ b. pos (count * b)) sizes, (r', s')))
    unfolding sizes_loop
    sizes_return count [] acc r r' s blocking e =
        (s, ap₂ (λ (x : Reader) (l : List ℤ). ok (l, (x, s))) (sym e) (sym (append-nil acc)))
    sizes_return count (b ∷ sizes) acc r r' s (one, blocking) (mid, draws, more) =
        let (s1, run) = rounds_return rounds count b r mid s one draws in
        let (s2, rest) =
          sizes_return count sizes (acc ++ pos (count * b) ∷ []) mid r' s1 blocking more in
        (
          s2,
          rw (
            run,
            product count b one.2,
            rest,
            append_assoc acc (pos (count * b) ∷ []) (map (λ x. pos (count * x)) sizes),
          ),
        )

    counts_return :
        (counts sizes : List ℕ) (acc : List ℤ) (r r' : Reader) (s : mr.Source)
        → All (λ (count : ℕ). All (IsBlocking count) sizes) counts
        → CountDraws rounds counts sizes r r'
        → (s' : mr.Source) × (counts_loop cr mr rounds counts sizes acc (r, s)
            ≡ ok (acc ++ concat_map (λ count. map (λ b. pos (count * b)) sizes) counts, (r', s')))
    unfolding counts_loop
    counts_return [] sizes acc r r' s blocking e =
        (s, ap₂ (λ (x : Reader) (l : List ℤ). ok (l, (x, s))) (sym e) (sym (append-nil acc)))
    counts_return (count ∷ counts) sizes acc r r' s (one, blocking) (mid, draws, more) =
        let row = map (λ b. pos (count * b)) sizes in
        let (s1, run) = sizes_return count sizes acc r mid s one draws in
        let (s2, rest) = counts_return counts sizes (acc ++ row) mid r' s1 blocking more in
        (
          s2,
          rw (
            run,
            rest,
            append_assoc acc row (concat_map (λ count. map (λ b. pos (count * b)) sizes) counts),
          ),
        )

    -- If crypto/rand gives a scalar for every run, and one more for each of its blocks, and every count
    -- and size is above 0 with a product that is an int64, then CSFigure1 returns without an error,
    -- whatever math/rand gives: all its runs build their file and hash tree and find their collision.
    -- The file sizes are the products of the first count with every size in order, then of the second,
    -- and so on, with the counts and the sizes beside them.
    pub cs_figure1_returns :
        (counts sizes : List ℕ) (r r' : Reader) (s : mr.Source)
        → All (λ (count : ℕ). All (IsBlocking count) sizes) counts
        → CountDraws rounds counts sizes r r'
        → (s' : mr.Source) × (cs_figure1 cr mr rounds counts sizes (r, s)
            ≡ ok (
              record {
                file_sizes = concat_map (λ count. map (λ b. pos (count * b)) sizes) counts;
                block_counts = counts;
                block_sizes = sizes;
              },
              (r', s'),
            ))
    unfolding cs_figure1
    cs_figure1_returns counts sizes r r' s blocking draws =
        let (s', run) = counts_return counts sizes [] r r' s blocking draws in (s', rw run)

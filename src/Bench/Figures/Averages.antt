-- ===== src/Bench/Figures/Averages.antt =====
-- CSFigure2 of bench/bench_cs.go: the sums of the costs.
use native.Mathlib.Nat
use proxyot.Prelude.{
  ℕ, zero, suc, ◌+◌, ◌*◌, ◌^◌, ◌<◌, ◌≤◌, ◌≡◌, refl, sym, ap, ap₂, ◌∙◌, arith, List, [], ◌∷◌, map,
  length, All, replicate,
}
use proxyot.Prelude.Result.{ok}
use proxyot.BigInt.{ℤ, pos, ◌+ℤ◌}
use proxyot.Rand.{Reader}
use proxyot.Bn256.{Bn256, IsPairing}
use proxyot.Crypto.{Bytes, Crypto}
use proxyot.MathRand.{MathRand, IsMathRand}
use proxyot.Fileobj.{to_int64}
use proxyot.Bench.Updates.{metadata_size}
use proxyot.Bench.Updates.Costs.{to_int64_small, cost_row, run_cs_figure2_costs}
use proxyot.Bench.Hashes.Outcome.{read_bytes_returns}
use proxyot.Bench.Figures.{
  element_wise_add, draw_blocks, drawn_cs_figure2, costs_loop, cs_figure2_costs,
}
use proxyot.Bench.Figures.Sizes.{RoundDraws, SizeDraws}

zeros_row : (k n : ℕ) → replicate n (pos 0) ≡ cost_row 0 k n
zeros_row k zero = refl
zeros_row k (suc n) =
    ap₂ (λ (x : ℕ) (xs : List ℤ). pos x ∷ xs) (let e : 0 ≡ 0 * suc k = omega arith in e)
      (zeros_row (suc k) n)

add_small :
    (a c j : ℕ) → (a + c) * j < 2 ^ 63 → to_int64 (pos (a * j) +ℤ pos (c * j)) ≡ pos ((a + c) * j)
unfolding ◌+ℤ◌
add_small a c j fits =
    ap (λ (n : ℕ). to_int64 (pos n)) (sym (Nat.add-mul a c j)) ∙ to_int64_small ((a + c) * j) fits

element_wise_add-cost_row :
    (a c k n : ℕ)
    → (a + c) * (k + n) < 2 ^ 63
    → element_wise_add (cost_row a k n) (cost_row c k n) ≡ ok (cost_row (a + c) k n)
unfolding element_wise_add
element_wise_add-cost_row a c k zero fits = refl
element_wise_add-cost_row a c k (suc n) fits = rw (
  element_wise_add-cost_row a c (suc k) n (omega (arith, fits, shifted)),
  add_small a c (suc k) (omega (arith, fits, bounded)),
)
  where
    shifted : (a + c) * (suc k + n) ≡ (a + c) * (k + suc n)
    shifted = ap (λ (j : ℕ). (a + c) * j) (omega arith)

    bounded : (a + c) * suc k ≤ (a + c) * (k + suc n)
    bounded = Nat.mul-le-mul_left (a + c) (omega arith)

module _ (mr : MathRand) (rand_laws : IsMathRand mr) where
  draw_blocks_returns :
      (block_size n : ℕ) (s : mr.Source)
      → (blocks : List Bytes) × (s' : mr.Source) × (draw_blocks mr block_size n s ≡ ok (blocks, s'))
        × (length blocks ≡ n)
  unfolding draw_blocks
  draw_blocks_returns block_size zero s = ([], s, refl, refl)
  draw_blocks_returns block_size (suc n) s =
      let (bytes, s1, read, _) = read_bytes_returns mr rand_laws block_size s in
      let (blocks, s2, rest, len) = draw_blocks_returns block_size n s1 in
      (bytes ∷ blocks, s2, rw (read, rest), ap suc len)

  module _ ⦃bn : Bn256⦄ (laws : IsPairing bn) (cr : Crypto) where
    drawn_cs_figure2_returns :
        (n b : ℕ) (r r' : Reader) (s : mr.Source)
        → (metadata_size + b) * n < 2 ^ 63
        → RoundDraws 1 1 r r'
        → (s' : mr.Source) × (drawn_cs_figure2 cr mr n b (r, s)
            ≡ ok (cost_row (metadata_size + b) 0 n, (r', s')))
    unfolding drawn_cs_figure2
    drawn_cs_figure2_returns n b r r' s fits (mid, (x, r1, drawn, (k, r2, drawn', e)), e') =
        let (bytes, s1, read, _) = read_bytes_returns mr rand_laws b s in
        let (blocks, s2, made, len) = draw_blocks_returns b n s1 in
        let run =
          run_cs_figure2_costs laws cr x k b bytes blocks r r1 r2 drawn drawn'
            (omega (arith, fits, ap (λ (m : ℕ). (metadata_size + b) * m) len)) in
        let run' =
          run
          ∙ ap₂ (λ (m : ℕ) (q : Reader). ok (cost_row (metadata_size + b) 0 m, q)) len
              (sym e ∙ sym e') in
        (s2, rw (read, made, run'))

    costs_return :
        (rounds acc n b total : ℕ) (r r' : Reader) (s : mr.Source)
        → acc + rounds * (metadata_size + b) ≡ total
        → total * n < 2 ^ 63
        → RoundDraws rounds 1 r r'
        → (s' : mr.Source) × (costs_loop cr mr n b rounds (cost_row acc 0 n) (r, s)
            ≡ ok (cost_row total 0 n, (r', s')))
    unfolding costs_loop
    costs_return zero acc n b total r r' s sum fits e = (
      s,
      ap₂ (λ (a : ℕ) (q : Reader). ok (cost_row a 0 n, (q, s)))
          (let same : acc ≡ total = omega (arith, sum) in same) (sym e),
    )
    costs_return (suc rounds) acc n b total r r' s sum fits (mid, gives, draws) =
        let cost = metadata_size + b in
        let sum' : (acc + cost) + rounds * cost ≡ total =
          omega (arith, sum, Nat.suc-mul rounds cost) in
        let once : cost * n ≤ total * n = Nat.mul-le-mul_right n (omega (arith, sum')) in
        let twice : (acc + cost) * n ≤ total * n = Nat.mul-le-mul_right n (omega (arith, sum')) in
        let (s1, run) =
          drawn_cs_figure2_returns n b r mid s (omega (arith, fits, once)) (mid, gives, refl) in
        let (s2, rest) = costs_return rounds (acc + cost) n b total mid r' s1 sum' fits draws in
        (s2, rw (run, element_wise_add-cost_row acc cost 0 n (omega (arith, fits, twice)), rest))

    -- If crypto/rand gives two scalars for every round of every size, and what the rounds of a size
    -- cost together is an int64, then no run of CSFigure2 fails, whatever math/rand gives: for every
    -- size in turn, the sum for the update at the index i is i + 1 times the number of rounds times the
    -- size with the metadata.
    pub cs_figure2_costs_lem :
        (rounds n : ℕ) (sizes : List ℕ) (r r' : Reader) (s : mr.Source)
        → All (λ (b : ℕ). rounds * (metadata_size + b) * n < 2 ^ 63) sizes
        → SizeDraws rounds 1 sizes r r'
        → (s' : mr.Source) × (cs_figure2_costs cr mr rounds n sizes (r, s)
            ≡ ok (map (λ b. cost_row (rounds * (metadata_size + b)) 0 n) sizes, (r', s')))
    unfolding cs_figure2_costs
    cs_figure2_costs_lem rounds n [] r r' s fits e =
        (s, ap (λ (x : Reader). ok ([], (x, s))) (sym e))
    cs_figure2_costs_lem rounds n (b ∷ sizes) r r' s (one, fits) (mid, draws, more) =
        let (s1, run) =
          costs_return rounds 0 n b (rounds * (metadata_size + b)) r mid s (omega arith) one
            draws in
        let (s2, rest) = cs_figure2_costs_lem rounds n sizes mid r' s1 fits more in
        (s2, rw (zeros_row 0 n, run, rest))

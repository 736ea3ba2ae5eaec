-- ===== src/Tests/Figures.antt =====
-- The theorems on the figures of bench/bench_cs.go, at concrete values.
use proxyot.Prelude.{◌≡◌, refl, arith, [], ◌∷◌}
use proxyot.Prelude.Result.{ok}
use proxyot.BigInt.{pos, set_bytes}
use proxyot.Rand.{Reader, read_full, bit_len, bit_len_loop, int_loop, rand_int}
use proxyot.Curve.{random_field_element, field_element_loop}
use proxyot.Bench.Figures.{cs_figure1, cs_figure2_costs}
use proxyot.Bench.Figures.Sizes.{cs_figure1_returns}
use proxyot.Bench.Figures.Averages.{cs_figure2_costs_lem}
use proxyot.Tests.Toy.{toy, toy-IsPairing}
use proxyot.Tests.Draws.{steady, steady-IsMathRand, counted}

abbrev three_scalars : Reader
three_scalars = 5 ∷ 4 ∷ 3 ∷ []

scalar_five : random_field_element ⦃bn = toy⦄ three_scalars ≡ ok (pos 5, 4 ∷ 3 ∷ [])
unfolding random_field_element field_element_loop rand_int int_loop bit_len bit_len_loop read_full
    set_bytes
scalar_five = refl

scalar_four : random_field_element ⦃bn = toy⦄ (4 ∷ 3 ∷ []) ≡ ok (pos 4, 3 ∷ [])
unfolding random_field_element field_element_loop rand_int int_loop bit_len bit_len_loop read_full
    set_bytes
scalar_four = refl

scalar_three : random_field_element ⦃bn = toy⦄ (3 ∷ []) ≡ ok (pos 3, [])
unfolding random_field_element field_element_loop rand_int int_loop bit_len bit_len_loop read_full
    set_bytes
scalar_three = refl

cs_figure1_returns_example :
    (s' : Unit {0}) × (cs_figure1 ⦃bn = toy⦄ counted steady 1 (2 ∷ []) (3 ∷ []) (three_scalars, tt)
      ≡ ok (
        record { file_sizes = pos 6 ∷ []; block_counts = 2 ∷ []; block_sizes = 3 ∷ [] },
        ([], s'),
      ))
cs_figure1_returns_example =
    cs_figure1_returns ⦃bn = toy⦄ toy-IsPairing counted steady steady-IsMathRand 1 (2 ∷ []) (3 ∷ [])
      three_scalars [] tt (((omega arith, omega arith, omega arith), tt), tt)
      (
        [],
        (
          [],
          (
            [],
            (5, 4 ∷ 3 ∷ [], scalar_five, (4, 3 ∷ [], scalar_four, (3, [], scalar_three, refl))),
            refl,
          ),
          refl,
        ),
        refl,
      )

cs_figure2_costs_lem_example :
    (s' : Unit {0}) × (cs_figure2_costs ⦃bn = toy⦄ counted steady 1 2 (3 ∷ []) (three_scalars, tt)
      ≡ ok ((pos 131 ∷ pos 262 ∷ []) ∷ [], (3 ∷ [], s')))
cs_figure2_costs_lem_example =
    cs_figure2_costs_lem steady steady-IsMathRand ⦃bn = toy⦄ toy-IsPairing counted 1 2 (3 ∷ [])
      three_scalars (3 ∷ []) tt (omega arith, tt)
      (3 ∷ [], (3 ∷ [], (5, 4 ∷ 3 ∷ [], scalar_five, (4, 3 ∷ [], scalar_four, refl)), refl), refl)

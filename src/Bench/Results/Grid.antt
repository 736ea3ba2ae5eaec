-- ===== src/Bench/Results/Grid.antt =====
-- ShareMessageResults of bench/bench.go: the sizes are the powers, the counts the multiples, and the
-- results belong to them row by row.
use proxyot.Prelude.{ℕ, ◌+◌, ◌*◌, ◌^◌, ◌≡◌, refl, List, [], ◌∷◌, ◌++◌, map, get_elem?}
use proxyot.Prelude.Result.{ok}
use proxyot.BigInt.{ℤ, pos}
use proxyot.Bench.Sweeps.Values.{concat_map}
use proxyot.Bench.Sweeps.Nested.{up_to, IsSweep, nested_returns}
use proxyot.Bench.Results.{ExecResult, share_result, share_message_results}

-- For sizes from size_min above 0 by a ratio above 1, and counts by a step above 0, whose last
-- products and sums are below 2^63, fuel above size_max and above count_max + 1 is enough:
-- ShareMessageResults returns. The size at the index i is size_min * ratio^i if that is at most size_max,
-- and there is none otherwise; the count at j is count_min + step * j if that is at most count_max;
-- and the results are those of the first size with every count in order, then of the second, and so
-- on.
pub share_message_results_grid :
    (size_min size_max ratio count_min count_max step fuel i j : ℕ)
    → IsSweep size_min size_max ratio count_max step fuel
    → (results : List ExecResult) × (sizes counts : List ℤ) × (share_message_results fuel
          (pos size_min)
          (pos size_max)
          (pos ratio)
          (pos count_min)
          (pos count_max)
          (pos step)
        ≡ ok (results, sizes, counts))
      × (get_elem? sizes i ≡ up_to size_max (size_min * ratio ^ i))
      × (get_elem? counts j ≡ up_to count_max (count_min + step * j))
      × (results ≡ concat_map (λ size. map (share_result size) counts) sizes)
unfolding share_message_results
share_message_results_grid size_min size_max ratio count_min count_max step fuel i j sweep =
    let (sizes, counts, sized, counted, run, size_at, count_at) =
      nested_returns size_min size_max ratio count_min count_max step fuel i j share_result
        (λ size count results. ok (results ++ share_result size count ∷ [])) sweep
        (λ size count acc below. refl) in
    (
      concat_map (λ size. map (share_result size) counts) sizes,
      sizes,
      counts,
      rw (sized, counted, run),
      size_at,
      count_at,
      refl,
    )

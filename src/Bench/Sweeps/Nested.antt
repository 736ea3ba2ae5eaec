-- ===== src/Bench/Sweeps/Nested.antt =====
-- Two loops over sizes and counts, one in the other, as bench/bench.go and bench/network.go have them.
use native.Mathlib.Nat
use native.Mathlib.Nat.{mul_assoc}
use proxyot.Prelude.{
  ℕ, zero, suc, ◌+◌, ◌*◌, ◌^◌, ◌≤◌, ◌<◌, ◌≡◌, refl, sym, ap, ◌∙◌, arith, leb, if◌then◌else◌, Option,
  some, none, List, [], ◌∷◌, ◌++◌, map, get_elem?, leb_iff, leb-false_iff,
}
use proxyot.Prelude.Result.{Result, ok}
use proxyot.BigInt.{ℤ, pos}
use proxyot.Bench.Sweeps.{times, plus, for_loop, values}
use proxyot.Bench.Sweeps.Values.{
  orbit, concat_map, Stops, for_loop_returns, values_returns, stops, times-Exact, plus-Exact,
}

-- The values up to a bound, in a closed form.
abbrev pub up_to : ℕ → ℕ → Option ℤ
up_to max v = if leb v max then some (pos v) else none

orbit_at :
    (g : ℕ → ℕ) (h : ℕ → ℕ → ℕ) (max : ℕ)
    → ((x : ℕ) → h x 0 ≡ x)
    → ((x i : ℕ) → h x (suc i) ≡ h (g x) i)
    → ((x i : ℕ) → x ≤ h x i)
    → (n x i : ℕ) → Stops g max n x
    → get_elem? (orbit g x n) i ≡ up_to max (h x i)
orbit_at g h max first next above zero x i stopped =
    rw ((leb-false_iff (h x i) max).1 (omega (arith, above x i, stopped)))
orbit_at g h max first next above (suc n) x zero (below, stopped) =
    sym (ap (up_to max) (first x) ∙ rw ((leb_iff x max).1 below))
orbit_at g h max first next above (suc n) x (suc i) (below, stopped) =
    orbit_at g h max first next above n (g x) i stopped ∙ ap (up_to max) (sym (next x i))

powers_at :
    (ratio max n x i : ℕ)
    → 0 < ratio
    → Stops (λ v. v * ratio) max n x
    → get_elem? (orbit (λ v. v * ratio) x n) i ≡ up_to max (x * ratio ^ i)
powers_at ratio max n x i positive =
    orbit_at (λ v. v * ratio) (λ v i. v * ratio ^ i) max first next above n x i
  where
    first : (v : ℕ) → v * ratio ^ 0 ≡ v
    first v = ap (λ (p : ℕ). v * p) (Nat.pow-zero ratio) ∙ omega arith

    next : (v k : ℕ) → v * ratio ^ suc k ≡ v * ratio * ratio ^ k
    next v k = ap (λ (p : ℕ). v * p) (Nat.pow-succ' ratio k) ∙ sym (mul_assoc v ratio (ratio ^ k))

    above : (v k : ℕ) → v ≤ v * ratio ^ k
    above v k = omega (arith, Nat.mul-le-mul_left v (Nat.one-le-pow k ratio positive))

multiples_at :
    (step max n x i : ℕ)
    → Stops (λ v. v + step) max n x
    → get_elem? (orbit (λ v. v + step) x n) i ≡ up_to max (x + step * i)
multiples_at step max n x i =
    orbit_at (λ v. v + step) (λ v i. v + step * i) max (λ v. omega arith) (λ v i. omega arith)
      (λ v i. omega arith) n x i

concat_map-map {ℓ} :
    {B : Type ℓ} (f : ℤ → B) (xs : List ℤ) → concat_map (λ x. f x ∷ []) xs ≡ map f xs
concat_map-map f [] = refl
concat_map-map {B = B} f (x ∷ xs) = ap (λ (ys : List B). f x ∷ ys) (concat_map-map f xs)

-- The bounds under which both loops end with the given fuel and nothing wraps around.
pub record IsSweep (size_min size_max ratio count_max step fuel : ℕ) : Type 0 where
  pub some_size : 0 < size_min
  pub grows : 1 < ratio
  pub some_step : 0 < step
  pub size_fits : size_max * ratio < 2 ^ 63
  pub count_fits : count_max + step < 2 ^ 63
  pub size_fuel : size_max < fuel
  pub count_fuel : suc count_max < fuel

-- The loops have run for every size and every count, and their body has appended an element each time.
pub nested_returns {ℓ} :
    {B : Type ℓ} (size_min size_max ratio count_min count_max step fuel i j : ℕ) (f : ℤ → ℤ → B)
    (body : ℤ → ℤ → List B → Result (List B))
    → IsSweep size_min size_max ratio count_max step fuel
    → ((size count : ℕ) (acc : List B)
        → count ≤ count_max
        → body (pos size) (pos count) acc ≡ ok (acc ++ f (pos size) (pos count) ∷ []))
    → (sizes counts : List ℤ) × (values (times (pos ratio)) (pos size_max) fuel (pos size_min)
        ≡ ok sizes)
      × (values (plus (pos step)) (pos count_max) fuel (pos count_min) ≡ ok counts)
      × (for_loop
            (times (pos ratio))
            (pos size_max)
            (λ size. for_loop (plus (pos step)) (pos count_max) (body size) fuel (pos count_min))
            fuel
            (pos size_min)
            []
          ≡ ok (concat_map (λ size. map (f size) counts) sizes))
      × (get_elem? sizes i ≡ up_to size_max (size_min * ratio ^ i))
      × (get_elem? counts j ≡ up_to count_max (count_min + step * j))
nested_returns {B = B} size_min size_max ratio count_min count_max step fuel i j f body sweep
      appends =
    let (n, few, size_stops) =
      stops (λ v. v * ratio) size_max 1
        (λ x above. omega (arith, Nat.mul-le-mul_left x sweep.grows, above)) size_max size_min
        sweep.some_size (omega (arith, sweep.some_size)) in
    let (m, few', count_stops) =
      stops (λ v. v + step) count_max 0 (λ x above. omega (arith, sweep.some_step)) (suc count_max)
        count_min (omega arith) (omega arith) in
    let size_exact = times-Exact ratio size_max sweep.size_fits in
    let count_exact = plus-Exact step count_max sweep.count_fits in
    let size_enough : n < fuel = omega (arith, few, sweep.size_fuel) in
    let count_enough : m < fuel = omega (arith, few', sweep.count_fuel) in
    let counts = orbit (λ v. v + step) count_min m in
    (
      orbit (λ v. v * ratio) size_min n,
      counts,
      values_returns (times (pos ratio)) (λ v. v * ratio) size_max fuel n size_min size_exact
          size_stops size_enough,
      values_returns (plus (pos step)) (λ v. v + step) count_max fuel m count_min count_exact
          count_stops count_enough,
      for_loop_returns (times (pos ratio)) (λ v. v * ratio) size_max (λ size. map (f size) counts) _
          (λ size acc h.
            for_loop_returns (plus (pos step)) (λ v. v + step) count_max
              (λ count. f (pos size) count ∷ []) (body (pos size)) (appends size) count_exact fuel m
              count_min acc count_stops count_enough
            ∙ ap (λ (xs : List B). ok (acc ++ xs)) (concat_map-map (f (pos size)) counts))
          size_exact fuel n size_min [] size_stops size_enough,
      powers_at ratio size_max n size_min i (omega (arith, sweep.grows)) size_stops,
      multiples_at step count_max m count_min j count_stops,
    )

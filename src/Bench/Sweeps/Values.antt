-- ===== src/Bench/Sweeps/Values.antt =====
-- The loops over sizes and counts end, and their values are the powers and the multiples.
use native.Mathlib.Nat
use proxyot.Prelude.{
  ℕ, zero, suc, ◌+◌, ◌*◌, ◌^◌, ◌≤◌, ◌<◌, ◌≡◌, refl, ap, ◌∙◌, arith, List, [], ◌∷◌, ◌++◌, leb_iff,
  leb-false_iff, Bool-cases, inl, inr, append-nil, append_assoc, leb,
}
use proxyot.Prelude.Result.{Result, ok}
use proxyot.BigInt.{ℤ, pos, ◌+ℤ◌, ◌*ℤ◌}
use proxyot.Bench.Updates.Costs.{to_int64_small}
use proxyot.Bench.Sweeps.{times, plus, for_loop, values}

-- n values, each the next of the one before.
abbrev pub orbit : (ℕ → ℕ) → ℕ → ℕ → List ℤ
orbit g x zero = []
orbit g x (suc n) = pos x ∷ orbit g (g x) n

abbrev pub concat_map {ℓ κ} : {A : Type ℓ} {B : Type κ} → (A → List B) → List A → List B
concat_map f [] = []
concat_map f (x ∷ xs) = f x ++ concat_map f xs

-- From x on, n values are at most the bound, and the next one is above it.
abbrev pub Stops : (ℕ → ℕ) → ℕ → ℕ → ℕ → Type 0
Stops g max zero x = max < x
Stops g max (suc n) x = (x ≤ max) × Stops g max n (g x)

-- A step that does not wrap around up to the bound.
abbrev pub Exact : (ℤ → ℤ) → (ℕ → ℕ) → ℕ → Type 0
Exact next g max = (x : ℕ) → x ≤ max → next (pos x) ≡ pos (g x)

-- With more fuel than values, a loop whose body appends has run for them.
pub for_loop_returns {ℓ} :
    {B : Type ℓ} (next : ℤ → ℤ) (g : ℕ → ℕ) (max : ℕ) (f : ℤ → List B)
    (body : ℤ → List B → Result (List B))
    → ((v : ℕ) (acc : List B) → v ≤ max → body (pos v) acc ≡ ok (acc ++ f (pos v)))
    → Exact next g max
    → (fuel n x : ℕ) (acc : List B) → Stops g max n x
    → n < fuel
    → for_loop next (pos max) body fuel (pos x) acc ≡ ok (acc ++ concat_map f (orbit g x n))
unfolding for_loop
for_loop_returns next g max f body appends exact zero n x acc stops enough = absurd (omega arith)
for_loop_returns next g max f body appends exact (suc fuel) zero x acc stops enough =
    rw ((leb-false_iff x max).1 stops, append-nil acc)
for_loop_returns next g max f body appends exact (suc fuel) (suc n) x acc (below, stops) enough =
    rw (
      (leb_iff x max).1 below,
      appends x acc below,
      exact x below,
      for_loop_returns next g max f body appends exact fuel n (g x) (acc ++ f (pos x)) stops
          (omega arith),
      append_assoc acc (f (pos x)) (concat_map f (orbit g (g x) n)),
    )

concat_map-singleton : (xs : List ℤ) → concat_map (λ x. x ∷ []) xs ≡ xs
concat_map-singleton [] = refl
concat_map-singleton (x ∷ xs) = ap (λ (ys : List ℤ). x ∷ ys) (concat_map-singleton xs)

pub values_returns :
    (next : ℤ → ℤ) (g : ℕ → ℕ) (max fuel n x : ℕ)
    → Exact next g max
    → Stops g max n x
    → n < fuel
    → values next (pos max) fuel (pos x) ≡ ok (orbit g x n)
unfolding values
values_returns next g max fuel n x exact stops enough =
    for_loop_returns next g max (λ v. v ∷ []) (λ v vs. ok (vs ++ v ∷ [])) (λ v acc h. refl) exact
      fuel n x [] stops enough
    ∙ ap (λ (vs : List ℤ). ok vs) (concat_map-singleton (orbit g x n))

-- A step that grows passes every bound.
pub stops :
    (g : ℕ → ℕ) (max low : ℕ)
    → ((x : ℕ) → low ≤ x → x < g x)
    → (fuel x : ℕ) → low ≤ x
    → max < fuel + x
    → (n : ℕ) × (n ≤ fuel) × Stops g max n x
stops g max low grows zero x above enough = (0, omega arith, omega arith)
stops g max low grows (suc fuel) x above enough = elim (Bool-cases (leb x max)) [
  | inl e ↦
      let up = grows x above in
      let (n, few, rest) = stops g max low grows fuel (g x) (omega arith) (omega arith) in
      (suc n, omega arith, ((leb_iff x max).0 e, rest))
  | inr e ↦ (0, omega arith, (leb-false_iff x max).0 e)
]

pub times-Exact :
    (ratio max : ℕ) → max * ratio < 2 ^ 63 → Exact (times (pos ratio)) (λ x. x * ratio) max
unfolding times ◌*ℤ◌
times-Exact ratio max small x below =
    to_int64_small (x * ratio) (omega (arith, small, Nat.mul-le-mul_right ratio below))

pub plus-Exact : (step max : ℕ) → max + step < 2 ^ 63 → Exact (plus (pos step)) (λ x. x + step) max
unfolding plus ◌+ℤ◌
plus-Exact step max small x below = to_int64_small (x + step) (omega arith)

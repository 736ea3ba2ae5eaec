-- ===== src/Ot/Keys.antt =====
-- The values that the protocol computes, as multiples of the generator.
use proxyot.Prelude.{
  ℕ, zero, suc, ◌+◌, ◌-◌, ◌*◌, ◌<◌, ◌≡◌, refl, ap, ◌∙◌, arith, some, List, [], ◌∷◌, get_elem?,
  length,
}
use proxyot.Prelude.Result.{ok}
use proxyot.BigInt.{pos}
use proxyot.Rand.{Reader}
use proxyot.Bn256.{Bn256, IsPairing}
use proxyot.Curve.{Point, random_field_element}
use proxyot.Curve.Calculus.{mult1, scalar_mult1, add1, neg1}
use proxyot.Ot.{
  seal_choice, calculate_key_point, key_points_loop, calculate_key_points, reveal_key_point,
}

module _ ⦃bn : Bn256⦄ where
  -- The scalar of the key point of the ordinal i, for Y = y * G and pkA = a * G.
  abbrev pub key_scalar : ℕ → ℕ → ℕ → ℕ → ℕ
  key_scalar t y a i = y * t + a * (i * t) * (bn.order - 1)

  -- The points of the ordinals i, i + 1, ..., n of them.
  abbrev pub key_row : ℕ → ℕ → ℕ → ℕ → ℕ → List Point
  key_row t y a i zero = []
  key_row t y a i (suc n) = mult1 (key_scalar t y a i) ∷ key_row t y a (suc i) n

  pub get_elem?-key_row :
      (t y a i n k : ℕ)
      → k < n
      → get_elem? (key_row t y a i n) k ≡ some (mult1 (key_scalar t y a (i + k)))
  get_elem?-key_row t y a i zero k h = elim h [ ]
  get_elem?-key_row t y a i (suc n) zero h =
      ap (λ (j : ℕ). some (mult1 (key_scalar t y a j))) (omega arith)
  get_elem?-key_row t y a i (suc n) (suc k) h =
      get_elem?-key_row t y a (suc i) n k (omega arith)
      ∙ ap (λ (j : ℕ). some (mult1 (key_scalar t y a j))) (omega arith)

  pub length-key_row : (t y a i n : ℕ) → length (key_row t y a i n) ≡ n
  length-key_row t y a i zero = refl
  length-key_row t y a i (suc n) = ap suc (length-key_row t y a (suc i) n)

module _ ⦃bn : Bn256⦄ (laws : IsPairing bn) where
  pub seal_choice_mult :
      (beta a b l : ℕ) (r rest : Reader)
      → random_field_element r ≡ ok (pos l, rest)
      → seal_choice (pos beta) (mult1 a) (mult1 b) r
        ≡ ok ((mult1 (a * beta + b * l), mult1 l), rest)
  unfolding seal_choice
  seal_choice_mult beta a b l r rest drawn = rw (
    drawn,
    scalar_mult1 laws bn.g1.zero_value a beta,
    scalar_mult1 laws bn.g1.zero_value b l,
    add1 laws _ (a * beta) (b * l),
  )

  pub calculate_key_point_mult :
      (t y a i : ℕ)
      → calculate_key_point (pos t) (mult1 y) (mult1 a) (pos i) ≡ ok (mult1 (key_scalar t y a i))
  unfolding calculate_key_point
  calculate_key_point_mult t y a i = rw (
    scalar_mult1 laws bn.g1.zero_value y t,
    scalar_mult1 laws bn.g1.zero_value a (i * t),
    neg1 laws _ (a * (i * t)),
    add1 laws _ (y * t) (a * (i * t) * (bn.order - 1)),
  )

  key_points_loop_mult :
      (t y a i n : ℕ) → key_points_loop (pos t) (mult1 y) (mult1 a) i n ≡ ok (key_row t y a i n)
  unfolding key_points_loop
  key_points_loop_mult t y a i zero = refl
  key_points_loop_mult t y a i (suc n) =
      rw (calculate_key_point_mult t y a i, key_points_loop_mult t y a (suc i) n)

  pub calculate_key_points_mult :
      (t y l a n : ℕ) (r rest : Reader)
      → random_field_element r ≡ ok (pos t, rest)
      → calculate_key_points (mult1 y) (mult1 l) (mult1 a) (pos n) r
        ≡ ok ((key_row t y a 1 n, mult1 (l * t)), rest)
  unfolding calculate_key_points
  calculate_key_points_mult t y l a n r rest drawn =
      rw (drawn, key_points_loop_mult t y a 1 n, scalar_mult1 laws bn.g1.zero_value l t)

  pub reveal_key_point_mult : (m b : ℕ) → reveal_key_point (mult1 m) (pos b) ≡ ok (mult1 (m * b))
  unfolding reveal_key_point
  reveal_key_point_mult m b = scalar_mult1 laws bn.g1.zero_value m b

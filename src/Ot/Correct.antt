-- ===== src/Ot/Correct.antt =====
-- What the transfer gives Bob: the key point of his choice, and no other.
use proxyot.Prelude.{
  ℕ, suc, ◌+◌, ◌-◌, ◌*◌, ◌%◌, ◌<◌, ◌≡◌, ◌↔◌, ◌≢◌, sym, ap, ap₂, ◌∙◌, arith, some, List, get_elem?,
  length,
}
use proxyot.Prelude.Result.{ok, ok-injective}
use proxyot.BigInt.{ℤ, pos}
use proxyot.BigInt.Residue.{add_residue_iff, opposite_iff, mul_zero_iff, mul_nonzero}
use proxyot.Rand.{Reader}
use proxyot.Bn256.{Bn256, IsPairing}
use proxyot.Curve.{Point}
use proxyot.Curve.Field.{Draws, Draws-of}
use proxyot.Curve.Calculus.{mult1, mult1-eq_iff}
use proxyot.Ot.{seal_choice, calculate_key_points, reveal_key_point}
use proxyot.Ot.Keys.{
  key_scalar, key_row, seal_choice_mult, calculate_key_points_mult, reveal_key_point_mult,
  get_elem?-key_row, length-key_row,
}

module _ ⦃bn : Bn256⦄ (laws : IsPairing bn) where
  -- The key of the ordinal i is the revealed one exactly when i is the choice modulo the order.
  key_scalar_iff :
      (t beta a b l i : ℕ)
      → a % bn.order ≢ 0
      → t % bn.order ≢ 0
      → (key_scalar t (a * beta + b * l) a i % bn.order ≡ l * t * b % bn.order)
        ↔ (beta % bn.order ≡ i % bn.order)
  key_scalar_iff t beta a b l i na nt =
      let (f1, g1) = add_residue_iff bn.order x (l * t * b) in
      let (f2, g2) = mul_zero_iff bn.order (t * a) (beta + i * (bn.order - 1)) laws.prime nta in
      let (f3, g3) = opposite_iff bn.order beta i (omega arith) in
      (
        λ e. f3 (f2 (f1 (ap (λ (n : ℕ). n % bn.order) (sym regroup) ∙ e))),
        λ e. ap (λ (n : ℕ). n % bn.order) regroup ∙ g1 (g2 (g3 e)),
      )
    where
      x : ℕ
      x = t * a * (beta + i * (bn.order - 1))

      nta : t * a % bn.order ≢ 0
      nta = mul_nonzero bn.order t a laws.prime nt na

      regroup : key_scalar t (a * beta + b * l) a i ≡ x + l * t * b
      regroup = omega arith

  seal_choice-Draws :
      (beta : ℤ) (p q : Point) (r : Reader) {x : (Point × Point) × Reader}
      → seal_choice beta p q r ≡ ok x
      → Draws r
  unfolding seal_choice
  seal_choice-Draws beta p q r e = Draws-of r _ e

  calculate_key_points-Draws :
      (p q a : Point) (count : ℤ) (r : Reader) {x : (List Point × Point) × Reader}
      → calculate_key_points p q a count r ≡ ok x
      → Draws r
  unfolding calculate_key_points
  calculate_key_points-Draws p q a count r e = Draws-of r _ e

  pub seal_choice-inv :
      (beta a b : ℕ) (r r' : Reader) (y lp : Point)
      → seal_choice (pos beta) (mult1 a) (mult1 b) r ≡ ok ((y, lp), r')
      → (l : ℕ) × (y ≡ mult1 (a * beta + b * l)) × (lp ≡ mult1 l)
  seal_choice-inv beta a b r r' y lp e =
      let (l, rest, _, drawn) = seal_choice-Draws (pos beta) (mult1 a) (mult1 b) r e in
      let run = ok-injective (sym e ∙ seal_choice_mult laws beta a b l r rest drawn) in
      (
        l,
        ap (λ (p : (Point × Point) × Reader). p.0.0) run,
        ap (λ (p : (Point × Point) × Reader). p.0.1) run,
      )

  pub calculate_key_points-inv :
      (y l a n : ℕ) (r r' : Reader) (kps : List Point) (lp : Point)
      → calculate_key_points (mult1 y) (mult1 l) (mult1 a) (pos n) r ≡ ok ((kps, lp), r')
      → (t : ℕ) × (t % bn.order ≢ 0) × (kps ≡ key_row t y a 1 n) × (lp ≡ mult1 (l * t))
  calculate_key_points-inv y l a n r r' kps lp e =
      let (t, rest, nt, drawn) =
        calculate_key_points-Draws (mult1 y) (mult1 l) (mult1 a) (pos n) r e in
      let run = ok-injective (sym e ∙ calculate_key_points_mult laws t y l a n r rest drawn) in
      (
        t,
        nt,
        ap (λ (p : (List Point × Point) × Reader). p.0.0) run,
        ap (λ (p : (List Point × Point) × Reader). p.0.1) run,
      )

  -- With the keys a and b of Alice and Bob, a not 0 modulo the order, let Bob seal the choice beta
  -- and Alice compute n key points from it. Then Bob's secret key reveals a point from LPrime,
  -- there are n key points, and the one of each ordinal i + 1 up to n is the revealed one exactly when
  -- i + 1 and beta are equal modulo the order.
  pub transfer_exact :
      (beta a b n i : ℕ) (r r' s s' : Reader) (y lp l_prime : Point) (kps : List Point)
      → a % bn.order ≢ 0
      → i < n
      → seal_choice (pos beta) (mult1 a) (mult1 b) r ≡ ok ((y, lp), r')
      → calculate_key_points y lp (mult1 a) (pos n) s ≡ ok ((kps, l_prime), s')
      → (kp : Point) × (q : Point) × (reveal_key_point l_prime (pos b) ≡ ok kp)
        × (length kps ≡ n)
        × (get_elem? kps i ≡ some q)
        × ((q ≡ kp) ↔ (beta % bn.order ≡ suc i % bn.order))
  transfer_exact beta a b n i r r' s s' y lp l_prime kps na below sealed calculated =
      let (l, ey, el) = seal_choice-inv beta a b r r' y lp sealed in
      let (t, nt, ek, ep) = calculate_key_points-inv (a * beta + b * l) l a n s s' kps l_prime (
        ap₂ (λ (p q : Point). calculate_key_points p q (mult1 a) (pos n) s) (sym ey) (sym el)
        ∙ calculated) in
      (
        mult1 (l * t * b),
        mult1 (key_scalar t (a * beta + b * l) a (suc i)),
        ap (λ (p : Point). reveal_key_point p (pos b)) ep ∙ reveal_key_point_mult laws (l * t) b,
        ap length ek ∙ length-key_row t (a * beta + b * l) a 1 n,
        ap (λ (ps : List Point). get_elem? ps i) ek
            ∙ get_elem?-key_row t (a * beta + b * l) a 1 n i below
            ∙ ap (λ (j : ℕ). some (mult1 (key_scalar t (a * beta + b * l) a j))) (omega arith),
        chosen t l i na nt,
      )
    where
      chosen :
          (t l i : ℕ)
          → a % bn.order ≢ 0
          → t % bn.order ≢ 0
          → (mult1 (key_scalar t (a * beta + b * l) a (suc i)) ≡ mult1 (l * t * b))
            ↔ (beta % bn.order ≡ suc i % bn.order)
      chosen t l i na nt =
          let (f, g) = mult1-eq_iff laws (key_scalar t (a * beta + b * l) a (suc i)) (l * t * b) in
          let (f', g') = key_scalar_iff t beta a b l (suc i) na nt in (λ e. f' (f e), λ e. g (g' e))

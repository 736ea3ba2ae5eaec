-- ===== src/Curve/Calculus.antt =====
-- The points that the protocols reach are multiples of the three generators; here is how the
-- methods of curve/points.go act on them.
use proxyot.Prelude.{ℕ, ◌+◌, ◌-◌, ◌*◌, ◌%◌, ◌≡◌, ◌↔◌, ap}
use proxyot.Prelude.Result.{ok}
use proxyot.BigInt.{pos}
use proxyot.Bn256.{Bn256, IsPairing}
use proxyot.Bn256.Laws
use proxyot.Curve.{Point, g1, g2, gt, scalar_mult, add, neg, pair}

module _ ⦃bn : Bn256⦄ where
  -- k times the generator of G1, of G2 and of GT.
  abbrev pub mult1 : ℕ → Point
  mult1 k = g1 (bn.g1.scalar_base_mult (pos k))

  abbrev pub mult2 : ℕ → Point
  mult2 k = g2 (bn.g2.scalar_base_mult (pos k))

  abbrev pub mult_t : ℕ → Point
  mult_t k = gt (bn.gt.scalar_base_mult (pos k))

  module _ (laws : IsPairing bn) where
    pub scalar_mult1 :
        (e : bn.G1) (j k : ℕ) → scalar_mult (g1 e) (mult1 j) (pos k) ≡ ok (mult1 (j * k))
    unfolding scalar_mult
    scalar_mult1 e j k =
        ap (λ (a : bn.G1). ok (g1 a)) (Laws.scalar_mult-base bn.order bn.g1 laws.cyclic1 j k)

    pub scalar_mult2 :
        (e : bn.G2) (j k : ℕ) → scalar_mult (g2 e) (mult2 j) (pos k) ≡ ok (mult2 (j * k))
    unfolding scalar_mult
    scalar_mult2 e j k =
        ap (λ (a : bn.G2). ok (g2 a)) (Laws.scalar_mult-base bn.order bn.g2 laws.cyclic2 j k)

    pub scalar_mult_t :
        (e : bn.GT) (j k : ℕ) → scalar_mult (gt e) (mult_t j) (pos k) ≡ ok (mult_t (j * k))
    unfolding scalar_mult
    scalar_mult_t e j k =
        ap (λ (a : bn.GT). ok (gt a)) (Laws.scalar_mult-base bn.order bn.gt laws.cyclic_t j k)

    pub add1 : (e : bn.G1) (j k : ℕ) → add (g1 e) (mult1 j) (mult1 k) ≡ ok (mult1 (j + k))
    unfolding add
    add1 e j k = ap (λ (a : bn.G1). ok (g1 a)) (Laws.add-base bn.order bn.g1 laws.cyclic1 j k)

    pub add_t : (e : bn.GT) (j k : ℕ) → add (gt e) (mult_t j) (mult_t k) ≡ ok (mult_t (j + k))
    unfolding add
    add_t e j k = ap (λ (a : bn.GT). ok (gt a)) (Laws.add-base bn.order bn.gt laws.cyclic_t j k)

    -- -k is the order less one, times k.
    pub neg1 : (e : bn.G1) (k : ℕ) → neg (g1 e) (mult1 k) ≡ ok (mult1 (k * (bn.order - 1)))
    unfolding neg
    neg1 e k =
        ap (λ (a : bn.G1). ok (g1 a)) (Laws.neg-base bn.order bn.g1 laws.cyclic1 laws.prime k)

    pub pair_mult :
        (j k : ℕ)
        → pair (bn.g1.scalar_base_mult (pos j)) (bn.g2.scalar_base_mult (pos k)) ≡ mult_t (j * k)
    unfolding pair
    pair_mult j k = ap gt (laws.bilinear j k)

    -- Points of G1 are equal exactly when their scalars are equal modulo the order.
    pub mult1-eq_iff : (j k : ℕ) → (mult1 j ≡ mult1 k) ↔ (j % bn.order ≡ k % bn.order)
    mult1-eq_iff j k =
        let (f, g) = Laws.base-eq_iff bn.order bn.g1 laws.cyclic1 j k in
        (λ e. f (ap content e), λ e. ap g1 (g e))
      where
        content : Point → bn.G1
        content (g1 a) = a
        content (g2 a) = bn.g1.scalar_base_mult (pos j)
        content (gt a) = bn.g1.scalar_base_mult (pos j)

    pub mult_t-congr : (j k : ℕ) → j % bn.order ≡ k % bn.order → mult_t j ≡ mult_t k
    mult_t-congr j k e = ap gt ((Laws.base-eq_iff bn.order bn.gt laws.cyclic_t j k).1 e)

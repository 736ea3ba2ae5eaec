-- ===== src/Ot.antt =====
-- ot/ot.go: the 1-out-of-n oblivious transfer between the receiver, Bob, and the sender, Alice.
-- The functions of the package call these methods on a handler that holds nothing.
pub mod Correct
pub mod Keys
use proxyot.Prelude.{ℕ, zero, suc, ◌+◌, List, [], ◌∷◌}
use proxyot.Prelude.Result.{Result, ok, panic, index_out_of_range, deref, ◌>>=◌}
use proxyot.BigInt.{ℤ, pos, negsuc, ◌*ℤ◌}
use proxyot.Rand.{Reader}
use proxyot.Bn256.{Bn256}
use proxyot.Curve.{
  Point, type_g1, new_point, scalar_base_mult, scalar_mult, add, neg, random_field_element,
}

module _ ⦃bn : Bn256⦄ where
  -- newPoint(), with the nil interface met where a method is called on it
  unfoldable pub new_g1 : Result Point
  unfolding new_point
  new_g1 = deref (new_point type_g1)

  -- params.SealChoice(beta, pkA, pkB): Y = beta * pkA + l * pkB and L = l * G, for a random l
  unfoldable pub seal_choice : ℤ → Point → Point → Reader → Result ((Point × Point) × Reader)
  unfolding new_g1 scalar_base_mult
  seal_choice beta pk_a pk_b r = do
    (l, rest) ← random_field_element r
    e ← new_g1
    let big_l = scalar_base_mult e l
    y ← scalar_mult e pk_a beta
    z ← scalar_mult e pk_b l
    y' ← add y y z
    ok ((y', big_l), rest)

  -- params.calculateKeyPoint(t, yp, pkA, ordinal): t * yp - ordinal * t * pkA
  unfoldable pub calculate_key_point : ℤ → Point → Point → ℤ → Result Point
  unfolding new_g1 ◌*ℤ◌
  calculate_key_point t yp pk_a ordinal = do
    e ← new_g1
    kpi ← scalar_mult e yp t
    temp ← scalar_mult e pk_a (ordinal *ℤ t)
    temp' ← neg temp temp
    add kpi kpi temp'

  -- The loop of CalculateKeyPoints at i, with `left` rounds to go: kps[i-1], kps[i], ...
  unfoldable pub key_points_loop : ℤ → Point → Point → ℕ → ℕ → Result (List Point)
  key_points_loop t yp pk_a i zero = ok []
  key_points_loop t yp pk_a i (suc left) = do
    kp ← calculate_key_point t yp pk_a (pos i)
    rest ← key_points_loop t yp pk_a (suc i) left
    ok (kp ∷ rest)

  -- `make([]curve.Point, count)` is a fault at a count below 0.
  abbrev key_points : ℤ → Point → Point → ℤ → Result (List Point)
  key_points t yp pk_a (pos count) = key_points_loop t yp pk_a 1 count
  key_points t yp pk_a (negsuc n) = panic index_out_of_range

  -- params.CalculateKeyPoints(Y, L, pkA, count): the key points and LPrime = t * L, for a random t
  unfoldable pub calculate_key_points :
      Point → Point → Point → ℤ → Reader → Result ((List Point × Point) × Reader)
  unfolding new_g1
  calculate_key_points yp lp pk_a count r = do
    (t, rest) ← random_field_element r
    kps ← key_points t yp pk_a count
    e ← new_g1
    l_prime ← scalar_mult e lp t
    ok ((kps, l_prime), rest)

  -- params.RevealKeyPoint(LPrime, skB)
  unfoldable pub reveal_key_point : Point → ℤ → Result Point
  unfolding new_g1
  reveal_key_point l_prime sk_b = new_g1 >>= λ e. scalar_mult e l_prime sk_b

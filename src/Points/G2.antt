-- ===== src/Points/G2.antt =====
-- curve/points.go: the methods of G2, by the receiver e.
use proxyot.Prelude.{Option}
use proxyot.Prelude.Result.{Result, ok, ◌>>=◌}
use proxyot.BigInt.{ℤ}
use proxyot.Bn256.{Bn256}
use proxyot.Crypto.{Bytes}
use proxyot.Points.{Curve, type_g2, Point, g2, as_g2, received}

module _ ⦃bn : Bn256⦄ where
  -- e.Curve()
  abbrev pub curve_of : bn.G2 → Curve
  curve_of e = type_g2

  -- e.Marshal()
  abbrev pub marshal : bn.G2 → Bytes
  marshal e = bn.g2.marshal e

  -- e.Unmarshal(m)
  abbrev pub unmarshal : bn.G2 → Bytes → Option (Point × Bytes)
  unmarshal e m = received g2 (bn.g2.unmarshal m)

  -- e.ScalarBaseMult(k)
  abbrev pub scalar_base_mult : bn.G2 → ℤ → Point
  scalar_base_mult e k = g2 (bn.g2.scalar_base_mult k)

  -- e.ScalarMult(a, k)
  abbrev pub scalar_mult : bn.G2 → Point → ℤ → Result Point
  scalar_mult e a k = as_g2 a >>= λ a'. ok (g2 (bn.g2.scalar_mult a' k))

  -- e.Add(a, b)
  abbrev pub add : bn.G2 → Point → Point → Result Point
  add e a b = do a' ← as_g2 a; b' ← as_g2 b; ok (g2 (bn.g2.add a' b'))

  -- e.Neg(a)
  abbrev pub neg : bn.G2 → Point → Result Point
  neg e a = as_g2 a >>= λ a'. ok (g2 (bn.g2.neg a'))

  -- e.Set(a)
  abbrev pub set : bn.G2 → Point → Result Point
  set e a = as_g2 a >>= λ a'. ok (g2 a')

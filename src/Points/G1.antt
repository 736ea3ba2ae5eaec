-- ===== src/Points/G1.antt =====
-- curve/points.go: the methods of G1, by the receiver e.
use proxyot.Prelude.{Option}
use proxyot.Prelude.Result.{Result, ok, ◌>>=◌}
use proxyot.BigInt.{ℤ}
use proxyot.Bn256.{Bn256}
use proxyot.Crypto.{Bytes}
use proxyot.Points.{Curve, type_g1, Point, g1, as_g1, received}

module _ ⦃bn : Bn256⦄ where
  -- e.Curve()
  abbrev pub curve_of : bn.G1 → Curve
  curve_of e = type_g1

  -- e.Marshal()
  abbrev pub marshal : bn.G1 → Bytes
  marshal e = bn.g1.marshal e

  -- e.Unmarshal(m)
  abbrev pub unmarshal : bn.G1 → Bytes → Option (Point × Bytes)
  unmarshal e m = received g1 (bn.g1.unmarshal m)

  -- e.ScalarBaseMult(k)
  abbrev pub scalar_base_mult : bn.G1 → ℤ → Point
  scalar_base_mult e k = g1 (bn.g1.scalar_base_mult k)

  -- e.ScalarMult(a, k)
  abbrev pub scalar_mult : bn.G1 → Point → ℤ → Result Point
  scalar_mult e a k = as_g1 a >>= λ a'. ok (g1 (bn.g1.scalar_mult a' k))

  -- e.Add(a, b)
  abbrev pub add : bn.G1 → Point → Point → Result Point
  add e a b = do a' ← as_g1 a; b' ← as_g1 b; ok (g1 (bn.g1.add a' b'))

  -- e.Neg(a)
  abbrev pub neg : bn.G1 → Point → Result Point
  neg e a = as_g1 a >>= λ a'. ok (g1 (bn.g1.neg a'))

  -- e.Set(a)
  abbrev pub set : bn.G1 → Point → Result Point
  set e a = as_g1 a >>= λ a'. ok (g1 a')

-- ===== src/Points/Gt.antt =====
-- curve/points.go: the methods of GT, by the receiver e.
use proxyot.Prelude.{Option}
use proxyot.Prelude.Result.{Result, ok, ◌>>=◌}
use proxyot.BigInt.{ℤ}
use proxyot.Bn256.{Bn256}
use proxyot.Crypto.{Bytes}
use proxyot.Points.{Curve, type_gt, Point, gt, as_gt, received}

module _ ⦃bn : Bn256⦄ where
  -- Pair(g1, g2)
  unfoldable pub pair : bn.G1 → bn.G2 → Point
  pair a b = gt (bn.pair a b)

  -- e.Curve()
  abbrev pub curve_of : bn.GT → Curve
  curve_of e = type_gt

  -- e.Marshal()
  abbrev pub marshal : bn.GT → Bytes
  marshal e = bn.gt.marshal e

  -- e.Unmarshal(m)
  abbrev pub unmarshal : bn.GT → Bytes → Option (Point × Bytes)
  unmarshal e m = received gt (bn.gt.unmarshal m)

  -- e.ScalarBaseMult(k)
  abbrev pub scalar_base_mult : bn.GT → ℤ → Point
  scalar_base_mult e k = gt (bn.gt.scalar_base_mult k)

  -- e.ScalarMult(a, k)
  abbrev pub scalar_mult : bn.GT → Point → ℤ → Result Point
  scalar_mult e a k = as_gt a >>= λ a'. ok (gt (bn.gt.scalar_mult a' k))

  -- e.Add(a, b)
  abbrev pub add : bn.GT → Point → Point → Result Point
  add e a b = do a' ← as_gt a; b' ← as_gt b; ok (gt (bn.gt.add a' b'))

  -- e.Neg(a)
  abbrev pub neg : bn.GT → Point → Result Point
  neg e a = as_gt a >>= λ a'. ok (gt (bn.gt.neg a'))

  -- e.Set(a)
  abbrev pub set : bn.GT → Point → Result Point
  set e a = as_gt a >>= λ a'. ok (gt a')

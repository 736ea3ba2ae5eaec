-- ===== src/Chash.antt =====
-- chash/chameleon.go: a chameleon hash, for which whoever knows x in Y = x * G1 finds collisions.
pub mod Collision
use proxyot.Prelude.{Bool}
use proxyot.Prelude.Equal.{bytes_equal}
use proxyot.Prelude.Result.{Result, ok, deref, ◌>>=◌}
use proxyot.BigInt.{ℤ, abs, mod_int, mod_inverse, ◌+ℤ◌, ◌-ℤ◌, ◌*ℤ◌}
use proxyot.Crypto.{Bytes, Crypto}
use proxyot.Bn256.{Bn256}
use proxyot.Curve.{
  Point, type_g2, type_gt, new_point, marshal, scalar_base_mult, add, pair, as_g1, as_g2,
}

-- type ChameleonHash [Size]byte
abbrev pub ChameleonHash : Type 0
ChameleonHash = Bytes

-- ch.Equals(target)
unfoldable pub equals : ChameleonHash → ChameleonHash → Bool
unfolding bytes_equal
equals ch target = bytes_equal ch target

module _ ⦃bn : Bn256⦄ (cr : Crypto) where
  -- ComputeHash(Y, R, m): the digest of m * GT + e(Y, R)
  unfoldable pub compute_hash : Point → Point → ℤ → Result ChameleonHash
  unfolding new_point scalar_base_mult
  compute_hash y r m = do
    e ← deref (new_point type_gt)
    let q_m = scalar_base_mult e m
    y' ← as_g1 y
    r' ← as_g2 r
    h ← add e q_m (pair y' r')
    ok (cr.sha256 (marshal h))

  -- Verify(target, Y, R, m)
  unfoldable pub verify : ChameleonHash → Point → Point → ℤ → Result Bool
  verify target y r m = do computed ← compute_hash y r m; ok (equals computed target)

  -- ComputeCollision(Y, x, r, m, mp, q): rp with m + x * r = mp + x * rp modulo q
  unfoldable pub compute_collision : Point → ℤ → ℤ → ℤ → ℤ → ℤ → Result (ChameleonHash × ℤ × Point)
  unfolding new_point scalar_base_mult
  compute_collision y x r m mp q = do
    temp ← mod_int (x *ℤ r +ℤ m -ℤ mp) q
    let ix = mod_inverse x (abs q)
    i ← deref ix
    let rp = temp *ℤ i
    e ← deref (new_point type_g2)
    let big_rp = scalar_base_mult e rp
    ch ← compute_hash y big_rp mp
    ok (ch, rp, big_rp)

-- ===== src/Curve.antt =====
-- curve/points.go and curve/curve.go: points of the three groups behind one interface, and random
-- and derived scalars.
pub mod Field
pub mod Calculus
pub use proxyot.Points.{Curve, type_g1, type_g2, type_gt, Point, g1, g2, gt, as_g1, as_g2}
unfoldable pub use proxyot.Points.Gt.{pair}
use proxyot.Prelude.{ℕ, zero, suc, ◌==◌, length, Option, none, some, List, if◌then◌else◌}
use proxyot.Prelude.Result.{Result, ok, err, diverged, invalid_curve, ◌>>=◌}
use proxyot.BigInt.{ℤ, pos, is_positive, mod_int, set_bytes}
use proxyot.Rand.{Reader, rand_int}
use proxyot.Bn256.{Bn256}
use proxyot.Crypto.{Crypto, Bytes}
use proxyot.Points.G1
use proxyot.Points.G2
use proxyot.Points.Gt

module _ ⦃bn : Bn256⦄ where
  -- The calls of a method of the interface Point: the receiver's dynamic type says whose.
  unfoldable pub curve_of : Point → Curve
  curve_of (g1 e) = G1.curve_of e
  curve_of (g2 e) = G2.curve_of e
  curve_of (gt e) = Gt.curve_of e

  -- The nil interface for any other number.
  unfoldable pub new_point : Curve → Option Point
  new_point c =
      if c == type_g1
      then some (g1 bn.g1.zero_value)
      else if c == type_g2
      then some (g2 bn.g2.zero_value)
      else if c == type_gt
      then some (gt bn.gt.zero_value)
      else none

  unfoldable pub marshal : Point → Bytes
  marshal (g1 e) = G1.marshal e
  marshal (g2 e) = G2.marshal e
  marshal (gt e) = Gt.marshal e

  unfoldable pub unmarshal : Point → Bytes → Option (Point × Bytes)
  unmarshal (g1 e) m = G1.unmarshal e m
  unmarshal (g2 e) m = G2.unmarshal e m
  unmarshal (gt e) m = Gt.unmarshal e m

  unfoldable pub scalar_base_mult : Point → ℤ → Point
  scalar_base_mult (g1 e) k = G1.scalar_base_mult e k
  scalar_base_mult (g2 e) k = G2.scalar_base_mult e k
  scalar_base_mult (gt e) k = Gt.scalar_base_mult e k

  unfoldable pub scalar_mult : Point → Point → ℤ → Result Point
  scalar_mult (g1 e) a k = G1.scalar_mult e a k
  scalar_mult (g2 e) a k = G2.scalar_mult e a k
  scalar_mult (gt e) a k = Gt.scalar_mult e a k

  unfoldable pub add : Point → Point → Point → Result Point
  add (g1 e) a b = G1.add e a b
  add (g2 e) a b = G2.add e a b
  add (gt e) a b = Gt.add e a b

  unfoldable pub neg : Point → Point → Result Point
  neg (g1 e) a = G1.neg e a
  neg (g2 e) a = G2.neg e a
  neg (gt e) a = Gt.neg e a

  unfoldable pub set : Point → Point → Result Point
  set (g1 e) a = G1.set e a
  set (g2 e) a = G2.set e a
  set (gt e) a = Gt.set e a

  -- The rounds of RandomFieldElement. Rounds that draw 0 are repeated.
  unfoldable pub field_element_loop : ℕ → Reader → Result (ℤ × Reader)
  field_element_loop zero r = diverged
  field_element_loop (suc f) r = do
    (k, rest) ← rand_int r bn.order
    let again = field_element_loop f rest
    if is_positive (pos k) then ok (pos k, rest) else again

  -- RandomFieldElement(r). A round takes a byte at least, so this many are enough.
  unfoldable pub random_field_element : Reader → Result (ℤ × Reader)
  random_field_element r = field_element_loop (suc (length r)) r

  -- NewRandomPoint(curve, r)
  unfoldable pub new_random_point : Curve → Reader → Result ((ℤ × Point) × Reader)
  unfolding new_point scalar_base_mult
  new_random_point c r = elim (new_point c) [
    | none ↦ err invalid_curve
    | some e ↦ do (n, rest) ← random_field_element r; ok ((n, scalar_base_mult e n), rest)
  ]

  module _ (cr : Crypto) where
    -- The rounds of DeriveFieldElementFromPoint: the hash is hashed again while it is 0 modulo the
    -- order. Nothing bounds their number, so it is an argument.
    unfoldable pub derive_loop : ℕ → Bytes → Result ℤ
    derive_loop zero h = diverged
    derive_loop (suc f) h =
        let again = derive_loop f (cr.sha256 h) in
        mod_int (pos (set_bytes h)) (pos bn.order) >>= λ k. if is_positive k then ok k else again

    unfoldable pub derive_field_element_from_point : ℕ → Point → Result ℤ
    derive_field_element_from_point rounds point = derive_loop rounds (cr.sha256 (marshal point))

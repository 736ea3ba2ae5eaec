-- ===== src/Points.antt =====
-- The types of curve/points.go and the constants of curve/curve.go. A point is the value that its
-- pointer leads to; a method's result is what its receiver, which the method also returns, holds
-- afterwards.
pub mod G1
pub mod G2
pub mod Gt
use proxyot.Prelude.{ℕ, Option, none, some}
use proxyot.Prelude.Result.{Result, ok, panic, bad_assertion}
use proxyot.Bn256.{Bn256}
use proxyot.Crypto.{Bytes}

-- type Curve uint32, and its constants
abbrev pub Curve : Type 0
Curve = ℕ

abbrev pub type_g1 : Curve
type_g1 = 0

abbrev pub type_g2 : Curve
type_g2 = 1

abbrev pub type_gt : Curve
type_gt = 2

module _ ⦃bn : Bn256⦄ where
  -- A non-nil value of the interface Point, by its dynamic type.
  pub data Point : Type 0 where
    g1 : bn.G1 → Point
    g2 : bn.G2 → Point
    gt : bn.GT → Point

  -- The assertions `.(*G1)`, `.(*G2)` and `.(*GT)`, which fault where they do not hold.
  abbrev pub as_g1 : Point → Result bn.G1
  as_g1 (g1 a) = ok a
  as_g1 (g2 a) = panic bad_assertion
  as_g1 (gt a) = panic bad_assertion

  abbrev pub as_g2 : Point → Result bn.G2
  as_g2 (g1 a) = panic bad_assertion
  as_g2 (g2 a) = ok a
  as_g2 (gt a) = panic bad_assertion

  abbrev pub as_gt : Point → Result bn.GT
  as_gt (g1 a) = panic bad_assertion
  as_gt (g2 a) = panic bad_assertion
  as_gt (gt a) = ok a

  -- What a call of Unmarshal leaves in the receiver.
  abbrev pub received {ℓ} : {G : Type ℓ} → (G → Point) → Option (G × Bytes) → Option (Point × Bytes)
  received make none = none
  received make (some (a, rest)) = some (make a, rest)

-- ===== src/BigInt.antt =====
-- math/big of Go's standard library, as curve/curve.go, pre/pre.go, ot/ot.go and
-- chash/chameleon.go use it: signed integers, `Mod`, `ModInverse`, `Sign` and `SetBytes`.
pub mod Inverse
pub mod Residue
use proxyot.Prelude.{
  ℕ, zero, suc, ◌+◌, ◌-◌, ◌*◌, ◌%◌, ◌==◌, leb, Bool, true, false, Option, none, some, List, foldl,
  if◌then◌else◌,
}
use proxyot.Prelude.Result.{Result, ok, panic, divide_by_zero}

-- `negsuc n` is -(n + 1).
pub data ℤ : Type 0 where
  pos : ℕ → ℤ
  negsuc : ℕ → ℤ

-- -n and a - b, as integers.
abbrev pub neg_ℕ : ℕ → ℤ
neg_ℕ zero = pos 0
neg_ℕ (suc n) = negsuc n

abbrev pub sub_ℕ : ℕ → ℕ → ℤ
sub_ℕ a b = if leb b a then pos (a - b) else negsuc (b - a - 1)

infixl 65 ◌+ℤ◌ ◌-ℤ◌
infixl 70 ◌*ℤ◌
-- z.Add(x, y)
unfoldable pub ◌+ℤ◌ : ℤ → ℤ → ℤ
pos a +ℤ pos b = pos (a + b)
pos a +ℤ negsuc b = sub_ℕ a (suc b)
negsuc a +ℤ pos b = sub_ℕ b (suc a)
negsuc a +ℤ negsuc b = negsuc (a + b + 1)

-- z.Sub(x, y)
unfoldable pub ◌-ℤ◌ : ℤ → ℤ → ℤ
pos a -ℤ pos b = sub_ℕ a b
pos a -ℤ negsuc b = pos (a + suc b)
negsuc a -ℤ pos b = negsuc (a + b)
negsuc a -ℤ negsuc b = sub_ℕ (suc b) (suc a)

-- z.Mul(x, y)
unfoldable pub ◌*ℤ◌ : ℤ → ℤ → ℤ
pos a *ℤ pos b = pos (a * b)
pos a *ℤ negsuc b = neg_ℕ (a * suc b)
negsuc a *ℤ pos b = neg_ℕ (suc a * b)
negsuc a *ℤ negsuc b = pos (suc a * suc b)

-- The Euclidean remainder of an integer by a number above 0.
unfoldable pub emod : ℤ → ℕ → ℕ
emod (pos a) n = a % n
emod (negsuc a) n = n - 1 - a % n

abbrev pub abs : ℤ → ℕ
abs (pos n) = n
abs (negsuc n) = suc n

-- z.Mod(x, y): Euclidean, and a fault at y = 0.
unfoldable pub mod_int : ℤ → ℤ → Result ℤ
mod_int x y = if abs y == 0 then panic divide_by_zero else ok (pos (emod x (abs y)))

-- The largest i below the bound with a * i = 1 modulo n.
unfoldable pub find_inverse : ℕ → ℕ → ℕ → Option ℕ
find_inverse a n zero = none
find_inverse a n (suc i) =
    let rest = find_inverse a n i in if a * i % n == 1 % n then some i else rest

-- z.ModInverse(g, n): the inverse of g in the ring ℤ/nℤ, and nil if g has none.
unfoldable pub mod_inverse : ℤ → ℕ → Option ℤ
mod_inverse g n = elim (find_inverse (emod g n) n n) [ none ↦ none | some i ↦ some (pos i) ]

-- z.Sign() > 0
abbrev pub is_positive : ℤ → Bool
is_positive (pos zero) = false
is_positive (pos (suc n)) = true
is_positive (negsuc n) = false

-- z.SetBytes(buf): the bytes of an unsigned integer, the highest first.
unfoldable pub set_bytes : List ℕ → ℕ
set_bytes = foldl (λ z b. z * 256 + b) 0

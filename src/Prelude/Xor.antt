-- ===== src/Prelude/Xor.antt =====
-- The exclusive or of two numbers undoes itself.
use Prim.Native.Nat.{
  ℕ, zero, suc, ◌+◌, ◌*◌, ◌/◌, ◌%◌, ◌≤◌, ◌<◌, bit_xor, digits, differ, bit_xor-bitwise,
}
use mathlib.Core.Path.{◌≡◌, refl, ap, ap₂, ◌∙◌}
use native.Mathlib.Omega.{arith}

xor_digits_fuel :
    (n m a b : ℕ) → a ≤ n → a ≤ m → digits (λ y. y) differ n a b ≡ digits (λ y. y) differ m a b
xor_digits_fuel zero zero a b p q = refl
xor_digits_fuel zero (suc m) zero b p q = refl
xor_digits_fuel zero (suc m) (suc a) b p q = absurd (omega arith)
xor_digits_fuel (suc n) zero zero b p q = refl
xor_digits_fuel (suc n) zero (suc a) b p q = absurd (omega arith)
xor_digits_fuel (suc n) (suc m) zero b p q = refl
xor_digits_fuel (suc n) (suc m) (suc a) b p q =
    ap (λ (t : ℕ). t * 2 + differ (suc a % 2) (b % 2))
      (xor_digits_fuel n m (suc a / 2) (b / 2) (omega arith) (omega arith))

bit_xor_step : (a b : ℕ) → bit_xor a b ≡ bit_xor (a / 2) (b / 2) * 2 + differ (a % 2) (b % 2)
bit_xor_step zero b = simp bit_xor-bitwise (omega arith)
bit_xor_step (suc a) b = simp bit_xor-bitwise (
    ap (λ (t : ℕ). t * 2 + differ (suc a % 2) (b % 2))
      (xor_digits_fuel a (suc a / 2) (suc a / 2) (b / 2) (omega arith) (omega arith)))

digit_differ : (x y : ℕ) → x < 2 → y < 2 → (differ x y < 2) × (differ (differ x y) y ≡ x)
digit_differ zero zero p q = (omega arith, refl)
digit_differ zero (suc zero) p q = (omega arith, refl)
digit_differ (suc zero) zero p q = (omega arith, refl)
digit_differ (suc zero) (suc zero) p q = (omega arith, refl)
digit_differ (suc (suc x)) y p q = absurd (omega arith)
digit_differ x (suc (suc y)) p q = absurd (omega arith)

cancel_fuel : (n a b : ℕ) → a ≤ n → b ≤ n → bit_xor (bit_xor a b) b ≡ a
cancel_fuel zero zero zero p q = refl
cancel_fuel zero (suc a) b p q = absurd (omega arith)
cancel_fuel zero zero (suc b) p q = absurd (omega arith)
cancel_fuel (suc n) a b p q =
    ap (λ (t : ℕ). bit_xor t b) (bit_xor_step a b)
    ∙ bit_xor_step (h * 2 + d) b
    ∙ ap₂ (λ (s t : ℕ). bit_xor s (b / 2) * 2 + differ t (b % 2)) upper lower
    ∙ ap₂ (λ (s t : ℕ). s * 2 + t) (cancel_fuel n (a / 2) (b / 2) (omega arith) (omega arith))
        digits_back.1
    ∙ omega arith
  where
    h : ℕ
    h = bit_xor (a / 2) (b / 2)

    d : ℕ
    d = differ (a % 2) (b % 2)

    digits_back : (d < 2) × (differ d (b % 2) ≡ a % 2)
    digits_back = digit_differ (a % 2) (b % 2) (omega arith) (omega arith)

    upper : (h * 2 + d) / 2 ≡ h
    upper = omega (arith, digits_back.0)

    lower : (h * 2 + d) % 2 ≡ d
    lower = omega (arith, digits_back.0)

pub bit_xor-cancel : (a b : ℕ) → bit_xor (bit_xor a b) b ≡ a
bit_xor-cancel a b = cancel_fuel (a + b) a b (omega arith) (omega arith)

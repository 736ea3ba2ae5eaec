-- ===== src/BigInt/Residue.antt =====
-- Sums, products and differences modulo a number, and the primes.
use native.Mathlib.Nat.{add-mod, div-add-mod, mul_comm, mul-add-mod_self_left, mul-sub}
use native.Mathlib.Nat
use proxyot.Prelude.{
  ℕ, ◌+◌, ◌-◌, ◌*◌, ◌/◌, ◌%◌, ◌≤◌, ◌<◌, ◌≡◌, ◌≢◌, ◌↔◌, ◌⊎◌, inl, inr, sym, ap, ap₂, ◌∙◌, arith,
}

pub mul_residue_left : (a b n : ℕ) → a % n * b % n ≡ a * b % n
mul_residue_left a b n =
    sym (mul-add-mod_self_left n (a / n * b) (a % n * b))
    ∙ ap (λ (t : ℕ). t % n) (omega (arith, ap (λ (t : ℕ). t * b) (div-add-mod a n)))

pub mul_residue_right : (a b n : ℕ) → a * (b % n) % n ≡ a * b % n
mul_residue_right a b n =
    ap (λ (t : ℕ). t % n) (mul_comm a (b % n))
    ∙ mul_residue_left b a n
    ∙ ap (λ (t : ℕ). t % n) (mul_comm b a)

-- Equal remainders stay equal under a product and a sum.
pub mul_congr : (n a b c : ℕ) → a % n ≡ b % n → c * a % n ≡ c * b % n
mul_congr n a b c e =
    sym (mul_residue_right c a n) ∙ ap (λ (t : ℕ). c * t % n) e ∙ mul_residue_right c b n

pub add_congr : (n a b c d : ℕ) → a % n ≡ b % n → c % n ≡ d % n → (a + c) % n ≡ (b + d) % n
add_congr n a b c d p q = add-mod a c n ∙ ap₂ (λ (s t : ℕ). (s + t) % n) p q ∙ sym (add-mod b d n)

-- The difference of two numbers with one remainder is a multiple of the modulus.
pub sub_residue : (n a b : ℕ) → a % n ≡ b % n → (b - a) % n ≡ 0
sub_residue n a b e =
    ap (λ (t : ℕ). t % n)
      (omega (arith, div-add-mod a n, div-add-mod b n, mul-sub n (b / n) (a / n)))
    ∙ Nat.mul-mod_right n (b / n - a / n)

pub eq_residue_of_sub : (n a b : ℕ) → a ≤ b → (b - a) % n ≡ 0 → a % n ≡ b % n
eq_residue_of_sub n a b h e =
    sym (mul-add-mod_self_left n ((b - a) / n) a)
    ∙ ap (λ (t : ℕ). t % n) (omega (arith, div-add-mod (b - a) n))

-- A number above 1 that divides a factor of every product that it divides.
pub record IsPrime (p : ℕ) : Type 0 where
  pub above_one : 1 < p
  pub euclid : (a b : ℕ) → a * b % p ≡ 0 → (a % p ≡ 0) ⊎ (b % p ≡ 0)

cancel_le : (p a b c : ℕ) → IsPrime p → a % p ≢ 0 → b ≤ c → a * b % p ≡ a * c % p → b % p ≡ c % p
cancel_le p a b c prime nz h e = elim (prime.euclid a (c - b) divides) [
  | inl z ↦ absurd (nz z)
  | inr z ↦ eq_residue_of_sub p b c h z
]
  where
    divides : a * (c - b) % p ≡ 0
    divides = ap (λ (t : ℕ). t % p) (mul-sub a c b) ∙ sub_residue p (a * b) (a * c) e

-- A factor that the prime does not divide can be cancelled.
pub cancel_prime : (p a b c : ℕ) → IsPrime p → a % p ≢ 0 → a * b % p ≡ a * c % p → b % p ≡ c % p
cancel_prime p a b c prime nz e = elim (le_total' b c) [
  | inl h ↦ cancel_le p a b c prime nz h e
  | inr h ↦ sym (cancel_le p a c b prime nz h (sym e))
]
  where
    le_total' : (x y : ℕ) → (x ≤ y) ⊎ (y ≤ x)
    le_total' x y = omega arith

-- A summand changes no remainder exactly when it leaves none.
pub add_residue_iff : (n x r : ℕ) → ((x + r) % n ≡ r % n) ↔ (x % n ≡ 0)
add_residue_iff n x r = (
  λ e. ap (λ (t : ℕ). t % n) (omega arith) ∙ sub_residue n r (x + r) (sym e),
  λ e. sym (eq_residue_of_sub n r (x + r) (omega arith) (ap (λ (t : ℕ). t % n) (omega arith) ∙ e)),
)

-- x - i, with n - 1 for -1.
pub opposite_iff : (n x i : ℕ) → 0 < n → ((x + i * (n - 1)) % n ≡ 0) ↔ (x % n ≡ i % n)
opposite_iff n x i h =
    let (f, g) = add_residue_iff n (x + i * (n - 1)) i in (λ e. sym whole ∙ g e, λ e. f (whole ∙ e))
  where
    whole : (x + i * (n - 1) + i) % n ≡ x % n
    whole =
        ap (λ (t : ℕ). t % n)
          (omega (arith, Nat.mul-sub i n 1, mul_comm i n, Nat.le-mul_of_pos_right {m = n} i h))
        ∙ mul-add-mod_self_left n i x

pub mul_zero_iff : (p c x : ℕ) → IsPrime p → c % p ≢ 0 → (c * x % p ≡ 0) ↔ (x % p ≡ 0)
mul_zero_iff p c x prime nz = (
  λ e. elim (prime.euclid c x e) [ inl z ↦ absurd (nz z) | inr z ↦ z ],
  λ e.
      sym (mul_residue_right c x p)
      ∙ ap (λ (t : ℕ). c * t % p) e
      ∙ ap (λ (t : ℕ). t % p) (Nat.mul-zero c)
      ∙ Nat.zero-mod p,
)

pub mul_nonzero : (p c x : ℕ) → IsPrime p → c % p ≢ 0 → x % p ≢ 0 → c * x % p ≢ 0
mul_nonzero p c x prime nc nx e = nx ((mul_zero_iff p c x prime nc).0 e)

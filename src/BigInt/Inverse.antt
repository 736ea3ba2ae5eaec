-- ===== src/BigInt/Inverse.antt =====
-- `ModInverse` modulo a prime: it is defined at every residue but 0, and its value is the inverse.
use mathlib.Core.WellFounded
use native.Mathlib.Nat.{div-add-mod, mul_comm, mul_assoc, mod-eq_of_lt, mod-lt, mul-pos}
use native.Mathlib.Nat
use proxyot.Prelude.{
  ℕ, zero, suc, ◌+◌, ◌-◌, ◌*◌, ◌/◌, ◌%◌, ◌<◌, ◌≡◌, ◌≢◌, inl, inr, refl, sym, ap, ◌∙◌, arith, none,
  some, false, ◌==◌, ==-false_iff, Bool-cases, eq-cases,
}
use proxyot.Prelude.Order.{lt_wf}
use proxyot.BigInt.{pos, emod, find_inverse, mod_inverse}
use proxyot.BigInt.Residue.{IsPrime, mul_residue_left, mul_residue_right}

find_inverse_sound : (a n k i : ℕ) → find_inverse a n k ≡ some i → (a * i % n ≡ 1 % n) × (i < k)
unfolding find_inverse
find_inverse_sound a n zero i e = absurd (none≢some i e)
  where
    none≢some : (j : ℕ) → ¬ (none ≡ some j)
    none≢some j h = cc
find_inverse_sound a n (suc k) i e = ground (arith, find_inverse_sound a n k i)

find_inverse_complete :
    (a n k j : ℕ) → j < k → a * j % n ≡ 1 % n → (i : ℕ) × (find_inverse a n k ≡ some i)
unfolding find_inverse
find_inverse_complete a n zero j h e = elim h [ ]
find_inverse_complete a n (suc k) j h e = elim (Bool-cases (a * k % n == 1 % n)) [
  | inl t ↦ (k, rw t)
  | inr f ↦ rw f (find_inverse_complete a n k j (below f) e)
]
  where
    below : (a * k % n == 1 % n) ≡ false → j < k
    below f = ground (arith, ==-false_iff (a * k % n) (1 % n))

-- One step of the Euclidean algorithm: from an inverse of p % a to an inverse of a.
inverse_step :
    (p a s : ℕ) → 0 < a → a < p → p % a * s % p ≡ 1 % p → a * ((p - p / a) * s) % p ≡ 1 % p
inverse_step p a s h lt e =
    ap (λ (t : ℕ). t % p) (sym (mul_assoc a (p - p / a) s))
    ∙ sym (mul_residue_left (a * (p - p / a)) s p)
    ∙ ap (λ (t : ℕ). t * s % p) leaves
    ∙ mul_residue_left (p % a) s p
    ∙ e
  where
    spread : a * (p - p / a) ≡ p * (a - 1) + p % a
    spread = omega (
      arith,
      Nat.mul-sub a p (p / a),
      Nat.mul-sub p a 1,
      div-add-mod p a,
      mul_comm a p,
      Nat.mul-div-le p a,
      Nat.le-mul_of_pos_right {m = a} p h,
    )

    leaves : a * (p - p / a) % p ≡ p % a % p
    leaves = ap (λ (t : ℕ). t % p) spread ∙ Nat.mul-add-mod_self_left p (a - 1) (p % a)

-- A prime divides by no number strictly between 1 and it.
remainder_pos : (p a : ℕ) → IsPrime p → 1 < a → a < p → 0 < p % a
remainder_pos p a prime h lt = elim (eq-cases (p % a) 0) [
  | inr nz ↦ omega arith
  | inl z ↦ absurd (no_factor z)
]
  where
    exact : p % a ≡ 0 → a * (p / a) ≡ p
    exact z = omega (arith, div-add-mod p a)

    quotient_pos : p % a ≡ 0 → 0 < p / a
    quotient_pos z = elim (eq-cases (p / a) 0) [
      | inl q ↦ absurd (omega (arith, exact z, ap (λ (t : ℕ). a * t) q))
      | inr q ↦ omega arith
    ]

    quotient_lt : p % a ≡ 0 → p / a < p
    quotient_lt z =
        omega (arith, exact z, quotient_pos z, Nat.mul-lt-mul_of_pos_right h (quotient_pos z))

    no_factor : ¬ (p % a ≡ 0)
    no_factor z = elim (prime.euclid a (p / a) (ap (λ (t : ℕ). t % p) (exact z) ∙ Nat.mod_self p)) [
      | inl e ↦ omega (arith, mod-eq_of_lt lt)
      | inr e ↦ omega (arith, quotient_pos z, mod-eq_of_lt (quotient_lt z))
    ]

abbrev HasInverse : ℕ → ℕ → Type 0
HasInverse p a = 0 < a → a < p → (j : ℕ) × (j < p) × (a * j % p ≡ 1 % p)

inverse_above_one :
    (p a : ℕ)
    → IsPrime p
    → ((r : ℕ) → r < a → HasInverse p r)
    → 1 < a
    → a < p
    → (j : ℕ) × (j < p) × (a * j % p ≡ 1 % p)
inverse_above_one p a prime ih h lt =
    let (s, below, e) =
      ih (p % a) (mod-lt p (omega arith)) (remainder_pos p a prime h lt)
        (omega (arith, mod-lt p {m = a} (omega arith))) in
    (
      (p - p / a) * s % p,
      mod-lt ((p - p / a) * s) (omega arith),
      mul_residue_right a ((p - p / a) * s) p ∙ inverse_step p a s (omega arith) lt e,
    )

inverse_exists : (p : ℕ) → IsPrime p → (a : ℕ) → HasInverse p a
inverse_exists p prime a = WellFounded.induction lt_wf {C = HasInverse p} a step
  where
    step : (n : ℕ) → ((m : ℕ) → m < n → HasInverse p m) → HasInverse p n
    step zero ih = λ h lt. absurd (omega arith)
    step (suc zero) ih = λ h lt. (1, prime.above_one, refl)
    step (suc (suc n)) ih = λ h lt. inverse_above_one p (suc (suc n)) prime ih (omega arith) lt

-- Modulo a prime p, `ModInverse` is defined at every number that p does not divide; its value
-- is below p, and its product with the number leaves 1.
pub mod_inverse_prime :
    (p a : ℕ)
    → IsPrime p
    → a % p ≢ 0
    → (i : ℕ) × (mod_inverse (pos a) p ≡ some (pos i)) × (i < p) × (a * i % p ≡ 1)
unfolding mod_inverse emod
mod_inverse_prime p a prime nz =
    let (j, below, e) = inverse_exists p prime (a % p) (omega arith) (mod-lt a (omega arith)) in
    let (i, found) = find_inverse_complete (a % p) p p j below e in
    let (inverse, bound) = find_inverse_sound (a % p) p p i found in
    (
      i,
      rw (found, mod_inverse),
      bound,
      sym (mul_residue_left a i p) ∙ inverse ∙ mod-eq_of_lt prime.above_one,
    )

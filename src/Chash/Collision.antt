-- ===== src/Chash/Collision.antt =====
-- The collision that ComputeCollision finds.
use native.Mathlib.Nat.{
  mod-add-mod, div-add-mod, mul-add-mod_self_left, mod-eq_of_lt, mod-lt, mul-one,
}
use proxyot.Prelude.{
  ℕ, ◌+◌, ◌-◌, ◌*◌, ◌/◌, ◌%◌, ◌<◌, ◌≡◌, ◌≢◌, inl, inr, refl, sym, ap, ◌∙◌, arith, true, false, some,
  ◌==◌, ==-false_iff, leb, leb_iff, leb-false_iff, Bool-cases,
}
use proxyot.Prelude.Equal.{bytes_equal_refl}
use proxyot.Prelude.Result.{ok}
use proxyot.BigInt.{pos, sub_ℕ, emod, mod_int, mod_inverse, ◌+ℤ◌, ◌-ℤ◌, ◌*ℤ◌}
use proxyot.BigInt.Residue.{mul_congr, add_congr}
use proxyot.BigInt.Inverse.{mod_inverse_prime}
use proxyot.Crypto.{Crypto}
use proxyot.Bn256.{Bn256, IsPairing}
use proxyot.Curve.{Point, marshal}
use proxyot.Curve.Calculus.{mult1, mult2, mult_t, add_t, pair_mult, mult_t-congr}
use proxyot.Chash.{ChameleonHash, equals, compute_hash, verify, compute_collision}

-- The Euclidean remainder of a difference, with the subtrahend added, is that of the minuend.
emod-sub : (n a b : ℕ) → 0 < n → (emod (sub_ℕ a b) n + b) % n ≡ a % n
unfolding emod
emod-sub n a b h = elim (Bool-cases (leb b a)) [
  | inl e ↦
      rw e (mod-add-mod (a - b) n b ∙ ap (λ (t : ℕ). t % n) (omega (arith, (leb_iff b a).0 e)))
  | inr e ↦ rw e (
      ap (λ (t : ℕ). t % n)
        (omega (arith, (leb-false_iff b a).0 e, div-add-mod (b - a - 1) n, mod-lt (b - a - 1) h))
      ∙ mul-add-mod_self_left n (1 + (b - a - 1) / n) a)
]

module _ ⦃bn : Bn256⦄ (laws : IsPairing bn) (cr : Crypto) where
  pub compute_hash_mult :
      (x r m : ℕ)
      → compute_hash cr (mult1 x) (mult2 r) (pos m) ≡ ok (cr.sha256 (marshal (mult_t (m + x * r))))
  unfolding compute_hash
  compute_hash_mult x r m = rw (pair_mult laws x r, add_t laws bn.gt.zero_value m (x * r))

  -- x * rp and x * r differ as the messages do.
  collision_scalar :
      (x r m mp i : ℕ)
      → x * i % bn.order ≡ 1
      → (mp + x * (emod (sub_ℕ (x * r + m) mp) bn.order * i)) % bn.order ≡ (m + x * r) % bn.order
  collision_scalar x r m mp i inverse =
      ap (λ (t : ℕ). t % bn.order) (omega arith)
      ∙ add_congr bn.order (t * (x * i)) t mp mp
          (mul_congr bn.order (x * i) 1 t (inverse ∙ sym (mod-eq_of_lt laws.prime.above_one))
            ∙ ap (λ (k : ℕ). k % bn.order) (mul-one t))
          refl
      ∙ emod-sub bn.order (x * r + m) mp (omega arith)
      ∙ ap (λ (k : ℕ). k % bn.order) (omega arith)
    where
      t : ℕ
      t = emod (sub_ℕ (x * r + m) mp) bn.order

  compute_collision_mult :
      (x r m mp i : ℕ)
      → mod_inverse (pos x) bn.order ≡ some (pos i)
      → let n = emod (sub_ℕ (x * r + m) mp) bn.order * i in
        compute_collision cr (mult1 x) (pos x) (pos r) (pos m) (pos mp) (pos bn.order)
        ≡ ok (cr.sha256 (marshal (mult_t (mp + x * n))), pos n, mult2 n)
  unfolding compute_collision mod_int ◌+ℤ◌ ◌-ℤ◌ ◌*ℤ◌
  compute_collision_mult x r m mp i found =
      rw (order_nonzero, found, compute_hash_mult x (emod (sub_ℕ (x * r + m) mp) bn.order * i) mp)
    where
      order_nonzero : (bn.order == 0) ≡ false
      order_nonzero = (==-false_iff bn.order 0).1 (omega arith)

  -- For Y = x * G1, R = r * G2 and x not 0 modulo the order, ComputeCollision returns for every two
  -- messages m and mp: a hash, a scalar n and n * G2. The hash is that of m with R, and Verify
  -- accepts it for the message mp with the new point.
  pub collision :
      (x r m mp : ℕ)
      → x % bn.order ≢ 0
      → (ch : ChameleonHash) × (n : ℕ) × (compute_collision cr
            (mult1 x)
            (pos x)
            (pos r)
            (pos m)
            (pos mp)
            (pos bn.order)
          ≡ ok (ch, pos n, mult2 n))
        × (compute_hash cr (mult1 x) (mult2 r) (pos m) ≡ ok ch)
        × (verify cr ch (mult1 x) (mult2 n) (pos mp) ≡ ok true)
  collision x r m mp nx =
      let (i, found, _, inverse) = mod_inverse_prime bn.order x laws.prime nx in
      let n = emod (sub_ℕ (x * r + m) mp) bn.order * i in
      let same : mult_t (m + x * r) ≡ mult_t (mp + x * n) =
        mult_t-congr laws _ _ (sym (collision_scalar x r m mp i inverse)) in
      (
        cr.sha256 (marshal (mult_t (mp + x * n))),
        n,
        compute_collision_mult x r m mp i found,
        compute_hash_mult x r m ∙ ap (λ (p : Point). ok (cr.sha256 (marshal p))) same,
        verified x n mp,
      )
    where
      verified :
          (x n mp : ℕ)
          → verify cr (cr.sha256 (marshal (mult_t (mp + x * n)))) (mult1 x) (mult2 n) (pos mp)
            ≡ ok true
      verified x n mp =
          unfold verify equals in
          rw
            (compute_hash_mult x n mp, bytes_equal_refl (cr.sha256 (marshal (mult_t (mp + x * n)))))

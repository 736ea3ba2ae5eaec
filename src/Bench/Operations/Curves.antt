-- ===== src/Bench/Operations/Curves.antt =====
-- The benchmarks of bench/proxyot.go on points and keys: all their rounds return.
use proxyot.Prelude.{ℕ, zero, suc, ◌+◌, ◌*◌, ◌%◌, ◌<◌, ◌≡◌, ◌≢◌, refl, ap, ◌∙◌, arith}
use proxyot.Prelude.Result.{Result, ok}
use proxyot.BigInt.{ℤ, pos}
use proxyot.BigInt.Inverse.{mod_inverse_prime}
use proxyot.Bn256.{Bn256, IsPairing}
use proxyot.Bn256.Laws
use proxyot.Crypto.{Crypto, IsCrypto}
use proxyot.Curve.{Curve, Point, g2, new_point, scalar_base_mult, scalar_mult, add}
use proxyot.Curve.Calculus.{
  mult1, mult2, mult_t, scalar_mult1, scalar_mult2, scalar_mult_t, add1, add_t,
}
use proxyot.Ot.{calculate_key_point}
use proxyot.Ot.Keys.{key_scalar, calculate_key_point_mult}
use proxyot.Pre.Delegation.{generate_re_key_mult, re_encrypt_mult}
use proxyot.MathRand.{MathRand, IsMathRand, int63n}
use proxyot.Bench.Draws.{rand_field_element, rand_point, bench_calculate_key_point}
use proxyot.Bench.Setup.Returns.{Supplies, supplied}
use proxyot.Bench.Sharing.{Derives}
use proxyot.Bench.Operations.{
  repeat, bench_scalar_base_mult, bench_scalar_mult, bench_scalar_div, bench_point_add, bench_pair,
  bench_generate_re_key, bench_re_encrypt, bench_generate_key,
}

-- A run that returns a state.
abbrev pub Ends {ℓ} : {S : Type ℓ} → Result S → Type ℓ
Ends {S = S} run = (s : S) × (run ≡ ok s)

pub repeat-Ends {ℓ} :
    {S : Type ℓ} (round : S → Result S)
    → ((s : S) → Ends (round s))
    → (n : ℕ) (s : S) → Ends (repeat n round s)
unfolding repeat
repeat-Ends round h zero s = (s, refl)
repeat-Ends round h (suc n) s =
    let (s1, e) = h s in let (s2, e') = repeat-Ends round h n s1 in (s2, rw (e, e'))

module _ ⦃bn : Bn256⦄ where
  -- On all arguments, faults included.
  copied :
      (t : ℤ) (y a : Point) (i : ℤ)
      → bench_calculate_key_point t y a i ≡ calculate_key_point t y a i
  unfolding bench_calculate_key_point calculate_key_point
  copied t y a i = refl

  -- Multiples of the generator of any of the three groups.
  abbrev pub mult : Curve → ℕ → Point
  mult zero k = mult1 k
  mult (suc zero) k = mult2 k
  mult (suc (suc c)) k = mult_t k

  module _ (laws : IsPairing bn) where
    scalar_mult-mult :
        (c : Curve) (m k : ℕ) → scalar_mult (mult c m) (mult c m) (pos k) ≡ ok (mult c (m * k))
    scalar_mult-mult zero m k = scalar_mult1 laws _ m k
    scalar_mult-mult (suc zero) m k = scalar_mult2 laws _ m k
    scalar_mult-mult (suc (suc c)) m k = scalar_mult_t laws _ m k

    add-mult : (c : Curve) (m k : ℕ) → add (mult c m) (mult c m) (mult c k) ≡ ok (mult c (m + k))
    unfolding add
    add-mult zero m k = add1 laws bn.g1.zero_value m k
    add-mult (suc zero) m k =
        ap (λ (a : bn.G2). ok (g2 a)) (Laws.add-base bn.order bn.g2 laws.cyclic2 m k)
    add-mult (suc (suc c)) m k = add_t laws bn.gt.zero_value m k

    add_rounds : (c : Curve) (n m k : ℕ) → Ends (repeat n (λ p. add p p (mult c k)) (mult c m))
    unfolding repeat
    add_rounds c zero m k = (mult c m, refl)
    add_rounds c (suc n) m k = let (p, e) = add_rounds c n (m + k) k in (p, rw (add-mult c m k, e))

    -- The benchmark's copy computes what the transfer's method does.
    pub key_point_returns :
        (t y a i : ℕ)
        → bench_calculate_key_point (pos t) (mult1 y) (mult1 a) (pos i)
          ≡ ok (mult1 (key_scalar t y a i))
    key_point_returns t y a i =
        copied (pos t) (mult1 y) (mult1 a) (pos i) ∙ calculate_key_point_mult laws t y a i

    module _ (cr : Crypto) (crypto : IsCrypto cr) (mr : MathRand) (rand_laws : IsMathRand mr)
        (rounds : ℕ) (supplies : Supplies laws cr crypto mr rand_laws rounds) where
      pub rand_point-mult :
          (c : Curve) (s : mr.Source)
          → c < 3
          → (n : ℕ) × (s' : mr.Source) × (rand_point mr rounds c s ≡ ok (mult c n, s'))
      unfolding rand_point new_point scalar_base_mult
      rand_point-mult zero s h =
          let (n, s', run, _) = supplied laws cr crypto mr rand_laws rounds supplies s in
          (n, s', rw run)
      rand_point-mult (suc zero) s h =
          let (n, s', run, _) = supplied laws cr crypto mr rand_laws rounds supplies s in
          (n, s', rw run)
      rand_point-mult (suc (suc zero)) s h =
          let (n, s', run, _) = supplied laws cr crypto mr rand_laws rounds supplies s in
          (n, s', rw run)
      rand_point-mult (suc (suc (suc c))) s h = absurd (omega arith)

      -- The draws of the rounds.
      number :
          (s : mr.Source)
          → (n : ℕ) × (s' : mr.Source) × (rand_field_element mr rounds s ≡ ok (pos n, s'))
            × (n % bn.order ≢ 0)
      number = supplied laws cr crypto mr rand_laws rounds supplies

      curve_rounds :
          (c : Curve) (n : ℕ) (s : mr.Source)
          → c < 3
          → Ends (bench_scalar_base_mult mr rounds c n s)
            × Ends (bench_scalar_mult mr rounds c n s)
            × Ends (bench_scalar_div mr rounds c n s)
            × Ends (bench_point_add mr rounds c n s)
      unfolding bench_scalar_base_mult bench_scalar_mult bench_scalar_div bench_point_add
      curve_rounds c n s h = (
        repeat-Ends _
            (λ s.
              let (m, s1, drawn) = rand_point-mult c s h in
              let (k, s2, drawn', _) = number s1 in (s2, rw (drawn, drawn')))
            n s,
        repeat-Ends _
            (λ s.
              let (m, s1, drawn) = rand_point-mult c s h in
              let (k, s2, drawn', _) = number s1 in
              (s2, rw (drawn, drawn', scalar_mult-mult c m k)))
            n s,
        repeat-Ends _
            (λ s.
              let (m, s1, drawn) = rand_point-mult c s h in
              let (k, s2, drawn', nk) = number s1 in
              let (i, found, _, _) = mod_inverse_prime bn.order k laws.prime nk in
              (s2, rw (drawn, drawn', found, scalar_mult-mult c m i)))
            n s,
        (let (m, s1, drawn) = rand_point-mult c s h in
            let (k, s2, drawn') = rand_point-mult c s1 h in
            let (sum, e) = add_rounds c n m k in (s2, rw (drawn, drawn', e))),
      )

      key_rounds :
          (n : ℕ) (s : mr.Source)
          → Ends (bench_pair mr rounds n s)
            × Ends (bench_generate_re_key mr rounds n s)
            × Ends (bench_re_encrypt mr rounds n s)
      unfolding bench_pair bench_generate_re_key bench_re_encrypt
      key_rounds n s = (
        repeat-Ends _
            (λ s.
              let (m, s1, drawn) = rand_point-mult 0 s (omega arith) in
              let (k, s2, drawn') = rand_point-mult 1 s1 (omega arith) in (s2, rw (drawn, drawn')))
            n s,
        repeat-Ends _
            (λ s.
              let (x, s1, drawn, nx) = number s in
              let (y, s2, drawn', _) = number s1 in
              let (i, _, made) = generate_re_key_mult laws x y nx in (s2, rw (drawn, drawn', made)))
            n s,
        repeat-Ends _
            (λ s.
              let (m, s1, drawn) = rand_point-mult 0 s (omega arith) in
              let (k, s2, drawn') = rand_point-mult 1 s1 (omega arith) in
              (s2, rw (drawn, drawn', re_encrypt_mult laws m k)))
            n s,
      )

      generate_key_rounds :
          (derive_rounds n : ℕ) (s : mr.Source)
          → ((m : ℕ) → Derives laws cr crypto derive_rounds (mult1 m))
          → Ends (bench_generate_key mr rounds cr derive_rounds n s)
      unfolding bench_generate_key int63n
      generate_key_rounds derive_rounds n s derives =
          repeat-Ends _
            (λ s.
              let (t, s1, drawn, _) = number s in
              let (y, s2, drawn') = rand_point-mult 0 s1 (omega arith) in
              let (a, s3, drawn'') = rand_point-mult 0 s2 (omega arith) in
              let i = (mr.below 100000 s3).0 in
              let (k, derived) = derives (key_scalar t y a i) in
              (
                (mr.below 100000 s3).1,
                rw (drawn, drawn', drawn'', key_point_returns t y a i, derived),
              ))
            n s

      -- If math/rand draws a scalar in the given rounds from every state of its source, and the keys
      -- of all points of G1 are derived in the given rounds, the benchmarks of the operations on
      -- points of the three groups, and of keys and re-keys, return for every number of rounds b.N:
      -- no assertion, inverse or index of theirs is ever a fault.
      pub operations_return :
          (derive_rounds : ℕ) (c : Curve) (n : ℕ) (s : mr.Source)
          → c < 3
          → ((m : ℕ) → Derives laws cr crypto derive_rounds (mult1 m))
          → (Ends (bench_scalar_base_mult mr rounds c n s)
              × Ends (bench_scalar_mult mr rounds c n s)
              × Ends (bench_scalar_div mr rounds c n s)
              × Ends (bench_point_add mr rounds c n s))
            × (Ends (bench_pair mr rounds n s)
                × Ends (bench_generate_re_key mr rounds n s)
                × Ends (bench_re_encrypt mr rounds n s))
            × Ends (bench_generate_key mr rounds cr derive_rounds n s)
      operations_return derive_rounds c n s h derives =
          (curve_rounds c n s h, key_rounds n s, generate_key_rounds derive_rounds n s derives)

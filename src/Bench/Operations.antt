-- ===== src/Bench/Operations.antt =====
-- The benchmarks of single operations in bench/proxyot.go. Each makes b.N rounds; the timer is left
-- out, what is computed is dropped, and b.Fatal(err) is the error. The calls that draw from math/rand
-- take its source along, those that draw from crypto/rand the reader.
pub mod Curves
pub mod Ciphers
use proxyot.Prelude.{ℕ, zero, suc}
use proxyot.Prelude.Result.{Result, ok, deref, ◌>>=◌}
use proxyot.BigInt.{ℤ, pos, mod_inverse}
use proxyot.Rand.{Reader}
use proxyot.Bn256.{Bn256}
use proxyot.Crypto.{Bytes, Crypto}
use proxyot.Curve.{
  Curve, Point, type_g1, type_g2, type_gt, marshal, scalar_base_mult, scalar_mult, add, pair, as_g1,
  as_g2, derive_field_element_from_point,
}
use proxyot.Pre.{encrypt, generate_re_key, re_encrypt, decrypt_by_receiver}
use proxyot.Pre.Cipher.{new_encrypt_closure, new_decrypt_closure}
use proxyot.MathRand.{MathRand, int63n}
use proxyot.Bench.Draws.{
  must_make_random_bytes, rand_field_element, rand_point, rand_point_and_key,
  bench_calculate_key_point,
}

-- `for i := 0; i < b.N; i++`, over what the rounds change
unfoldable pub repeat {ℓ} : {S : Type ℓ} → ℕ → (S → Result S) → S → Result S
repeat zero round s = ok s
repeat (suc n) round s = round s >>= λ s'. repeat n round s'

-- ioutil.Discard
abbrev pub discard : Bytes → Result (Unit {0})
discard text = ok tt

module _ ⦃bn : Bn256⦄ (mr : MathRand) (rounds : ℕ) where
  -- benchScalarBaseMult(b, typ)
  unfoldable pub bench_scalar_base_mult : Curve → ℕ → mr.Source → Result mr.Source
  unfolding repeat rand_point rand_field_element scalar_base_mult
  bench_scalar_base_mult typ n = repeat n λ s. do
    (p, s1) ← rand_point mr rounds typ s
    (k, s2) ← rand_field_element mr rounds s1
    let p' = scalar_base_mult p k
    ok s2

  -- benchScalarMult(b, typ)
  unfoldable pub bench_scalar_mult : Curve → ℕ → mr.Source → Result mr.Source
  unfolding repeat rand_point rand_field_element
  bench_scalar_mult typ n = repeat n λ s. do
    (p, s1) ← rand_point mr rounds typ s
    (k, s2) ← rand_field_element mr rounds s1
    p' ← scalar_mult p p k
    ok s2

  -- benchScalarDiv(b, typ)
  unfoldable pub bench_scalar_div : Curve → ℕ → mr.Source → Result mr.Source
  unfolding repeat rand_point rand_field_element
  bench_scalar_div typ n = repeat n λ s. do
    (p, s1) ← rand_point mr rounds typ s
    (k, s2) ← rand_field_element mr rounds s1
    ik ← deref (mod_inverse k bn.order)
    p' ← scalar_mult p p ik
    ok s2

  -- benchPointAdd(b, typ), whose rounds change p1
  unfoldable pub bench_point_add : Curve → ℕ → mr.Source → Result mr.Source
  unfolding repeat rand_point
  bench_point_add typ n s = do
    (p1, s1) ← rand_point mr rounds typ s
    (p2, s2) ← rand_point mr rounds typ s1
    sum ← repeat n (λ p. add p p p2) p1
    ok s2

  -- benchPair(b)
  unfoldable pub bench_pair : ℕ → mr.Source → Result mr.Source
  unfolding repeat rand_point pair
  bench_pair n = repeat n λ s. do
    (q1, s1) ← rand_point mr rounds type_g1 s
    p1 ← as_g1 q1
    (q2, s2) ← rand_point mr rounds type_g2 s1
    p2 ← as_g2 q2
    let paired = pair p1 p2
    ok s2

  -- benchGenerateReKey(b)
  unfoldable pub bench_generate_re_key : ℕ → mr.Source → Result mr.Source
  unfolding repeat rand_field_element
  bench_generate_re_key n = repeat n λ s. do
    (x, s1) ← rand_field_element mr rounds s
    (y, s2) ← rand_field_element mr rounds s1
    rk ← generate_re_key x y
    ok s2

  -- benchReEncrypt(b)
  unfoldable pub bench_re_encrypt : ℕ → mr.Source → Result mr.Source
  unfolding repeat rand_point
  bench_re_encrypt n = repeat n λ s. do
    (p1, s1) ← rand_point mr rounds type_g1 s
    (p2, s2) ← rand_point mr rounds type_g2 s1
    p ← re_encrypt p1 p2
    ok s2

  module _ (cr : Crypto) where
    -- benchGenerateKey(b)
    unfoldable pub bench_generate_key : ℕ → ℕ → mr.Source → Result mr.Source
    unfolding repeat rand_point rand_field_element int63n
    bench_generate_key derive_rounds n = repeat n λ s. do
      (t, s1) ← rand_field_element mr rounds s
      (y, s2) ← rand_point mr rounds type_g1 s1
      (pk_a, s3) ← rand_point mr rounds type_g1 s2
      (ordinal, s4) ← int63n mr (pos 100000) s3
      kpi ← bench_calculate_key_point t y pk_a (pos ordinal)
      k ← derive_field_element_from_point cr derive_rounds kpi
      ok s4

    -- benchEncrypt(b, size)
    unfoldable pub bench_encrypt : ℤ → ℕ → Reader × mr.Source → Result (Reader × mr.Source)
    unfolding repeat must_make_random_bytes rand_point
    bench_encrypt size n = repeat n λ (r, s). do
      (data', s1) ← must_make_random_bytes mr size s
      (pk, s2) ← rand_point mr rounds type_g1 s1
      (sealed, r1) ← encrypt pk (new_encrypt_closure cr (ok data') discard) r
      ok (r1, s2)

    -- benchAESEncrypt(b, size), whose rounds encrypt the same bytes under the same key
    unfoldable pub bench_aes_encrypt : ℤ → ℕ → Reader × mr.Source → Result (Reader × mr.Source)
    unfolding repeat must_make_random_bytes rand_point marshal
    bench_aes_encrypt size n (r, s) = do
      (data', s1) ← must_make_random_bytes mr size s
      (p, s2) ← rand_point mr rounds type_gt s1
      r1 ←
          repeat n
            (λ r. new_encrypt_closure cr (ok data') discard (marshal p) r >>= λ (done, r'). ok r') r
      ok (r1, s2)

    -- benchDecrypt(b, size)
    unfoldable pub bench_decrypt : ℤ → ℕ → Reader × mr.Source → Result (Reader × mr.Source)
    unfolding repeat must_make_random_bytes rand_point_and_key rand_field_element
    bench_decrypt size n = repeat n λ (r, s). do
      ((sk_a, pk_a), s1) ← rand_point_and_key mr rounds type_g1 s
      (sk_b, s2) ← rand_field_element mr rounds s1
      (data', s3) ← must_make_random_bytes mr size s2
      ((a, encrypted), r1) ← encrypt pk_a (new_encrypt_closure cr (ok data') ok) r
      rk_ab ← generate_re_key sk_a sk_b
      a_prime ← re_encrypt a rk_ab
      done ← decrypt_by_receiver a_prime sk_b (new_decrypt_closure cr (ok encrypted) discard)
      ok (r1, s3)

    -- benchAESDecrypt(b, size)
    unfoldable pub bench_aes_decrypt : ℤ → ℕ → Reader × mr.Source → Result (Reader × mr.Source)
    unfolding repeat must_make_random_bytes rand_point marshal
    bench_aes_decrypt size n = repeat n λ (r, s). do
      (data', s1) ← must_make_random_bytes mr size s
      (p, s2) ← rand_point mr rounds type_gt s1
      (text, r1) ← new_encrypt_closure cr (ok data') ok (marshal p) r
      done ← new_decrypt_closure cr (ok text) discard (marshal p)
      ok (r1, s2)

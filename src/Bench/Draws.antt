-- ===== src/Bench/Draws.antt =====
-- The random helpers of bench/proxyot.go over math/rand. The rounds are those of randFiledElement.
pub mod Range
use proxyot.Prelude.{ℕ, zero, suc, Option, none, some, List, [], ◌∷◌, ◌++◌, if◌then◌else◌}
use proxyot.Prelude.Result.{Result, ok, panic, diverged, panicked, bad_argument, deref, ◌>>=◌}
use proxyot.BigInt.{ℤ, pos, negsuc, ◌*ℤ◌, is_positive, mod_int, set_bytes}
use proxyot.Bn256.{Bn256}
use proxyot.Crypto.{Bytes}
use proxyot.Curve.{Curve, type_g1, Point, new_point, scalar_base_mult, scalar_mult, add, neg}
use proxyot.MathRand.{MathRand, big_endian}

module _ (mr : MathRand) where
  -- The buffer of randFiledElement after its four draws
  unfoldable pub four_words : mr.Source → Bytes × mr.Source
  unfolding big_endian
  four_words s =
      let (a, s1) = mr.uint64 s in
      let (b, s2) = mr.uint64 s1 in
      let (c, s3) = mr.uint64 s2 in
      let (d, s4) = mr.uint64 s3 in
      (big_endian 8 a ++ big_endian 8 b ++ big_endian 8 c ++ big_endian 8 d, s4)

  -- mustReadRandomBytes(buf), for a buffer of a length
  unfoldable pub must_read_random_bytes : ℕ → mr.Source → Result (Bytes × mr.Source)
  must_read_random_bytes n s = elim (mr.read n s) [ none ↦ panic panicked | some drawn ↦ ok drawn ]

  -- mustMakeRandomBytes(size): `make` is a fault at a size below 0.
  unfoldable pub must_make_random_bytes : ℤ → mr.Source → Result (Bytes × mr.Source)
  must_make_random_bytes (pos n) s = elim (mr.read n s) [
    | none ↦ panic panicked
    | some drawn ↦ ok drawn
  ]
  must_make_random_bytes (negsuc n) s = panic bad_argument

  -- The loop of mustMakeNRandomBytes
  unfoldable pub make_n_loop : ℤ → ℕ → mr.Source → Result (List Bytes × mr.Source)
  unfolding must_make_random_bytes
  make_n_loop size zero s = ok ([], s)
  make_n_loop size (suc n) s = do
    (bytes, s1) ← must_make_random_bytes size s
    (rest, s2) ← make_n_loop size n s1
    ok (bytes ∷ rest, s2)

  -- mustMakeNRandomBytes(size, n)
  unfoldable pub must_make_n_random_bytes : ℤ → ℤ → mr.Source → Result (List Bytes × mr.Source)
  unfolding make_n_loop
  must_make_n_random_bytes size (pos n) s = make_n_loop size n s
  must_make_n_random_bytes size (negsuc n) s = panic bad_argument

module _ ⦃bn : Bn256⦄ where
  -- calculateKeyPoint(t, yp, pkA, ordinal), which the benchmark has of its own
  unfoldable pub bench_calculate_key_point : ℤ → Point → Point → ℤ → Result Point
  unfolding new_point ◌*ℤ◌
  bench_calculate_key_point t yp pk_a ordinal = do
    e ← deref (new_point type_g1)
    kpi ← scalar_mult e yp t
    e' ← deref (new_point type_g1)
    temp ← scalar_mult e' pk_a (ordinal *ℤ t)
    temp' ← neg temp temp
    add kpi kpi temp'

  module _ (mr : MathRand) where
    -- randFiledElement()
    unfoldable pub rand_field_element : ℕ → mr.Source → Result (ℤ × mr.Source)
    unfolding four_words set_bytes mod_int
    rand_field_element zero s = diverged
    rand_field_element (suc f) s =
        let (buf, s') = four_words mr s in
        let again = rand_field_element f s' in
        mod_int (pos (set_bytes buf)) (pos bn.order) >>= λ k.
        if is_positive k then ok (k, s') else again

    module _ (rounds : ℕ) where
      -- randPointAndKey(typ)
      unfoldable pub rand_point_and_key : Curve → mr.Source → Result ((ℤ × Point) × mr.Source)
      unfolding rand_field_element new_point scalar_base_mult
      rand_point_and_key typ s = do
        (k, s') ← rand_field_element rounds s
        e ← deref (new_point typ)
        ok ((k, scalar_base_mult e k), s')

      -- randPoint(typ)
      unfoldable pub rand_point : Curve → mr.Source → Result (Point × mr.Source)
      unfolding rand_field_element new_point scalar_base_mult
      rand_point typ s = do
        (k, s') ← rand_field_element rounds s
        e ← deref (new_point typ)
        ok (scalar_base_mult e k, s')

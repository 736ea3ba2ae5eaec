-- ===== src/Bench/Updates/Costs.antt =====
-- Every update keeps the hash, and the costs add up.
use mathlib.Core.Path.{subst}
use native.Mathlib.Nat
use native.Mathlib.Nat.{mod-eq_of_lt}
use proxyot.Prelude.{
  ℕ, zero, suc, ◌+◌, ◌*◌, ◌%◌, ◌^◌, ◌<◌, ◌≤◌, ◌≡◌, ◌≢◌, refl, sym, ap, ◌∙◌, arith, true, List, [],
  ◌∷◌, length, ltb_iff, ==-false_iff,
}
use proxyot.Prelude.Result.{ok, ok-injective}
use proxyot.Prelude.Equal.{bytes_equal_refl}
use proxyot.BigInt.{ℤ, pos, emod, mod_int, set_bytes, ◌+ℤ◌}
use proxyot.Rand.{Reader}
use proxyot.Bn256.{Bn256, IsPairing}
use proxyot.Crypto.{Bytes, Crypto}
use proxyot.Curve.{
  type_g1, type_g2, new_point, scalar_base_mult, new_random_point, random_field_element,
}
use proxyot.Curve.Field.{random_field_element-IsFieldElement}
use proxyot.Curve.Calculus.{mult1, mult2}
use proxyot.Chash.{ChameleonHash, equals, compute_hash}
use proxyot.Chash.Collision.{collision}
use proxyot.Fileobj.{to_int64, of_bits}
use proxyot.Bench.Updates.{metadata_size, block_scalar, update_loop, run_cs_figure2}

-- A number below 2^63 does not wrap around.
pub to_int64_small : (n : ℕ) → n < 2 ^ 63 → to_int64 (pos n) ≡ pos n
unfolding to_int64
to_int64_small n h =
    ap of_bits (let e : n % 2 ^ 64 ≡ n = omega (arith, h) in e) ∙ rw ((ltb_iff n (2 ^ 63)).1 h)

-- The costs of the updates from the k-th, n of them.
abbrev pub cost_row : ℕ → ℕ → ℕ → List ℤ
cost_row cost k zero = []
cost_row cost k (suc n) = pos (cost * suc k) ∷ cost_row cost (suc k) n

pub equals_refl : (ch : ChameleonHash) → equals ch ch ≡ true
unfolding equals
equals_refl ch = bytes_equal_refl ch

module _ ⦃bn : Bn256⦄ (laws : IsPairing bn) (cr : Crypto) where
  pub block_scalar_mult :
      (bytes : Bytes) → block_scalar cr bytes ≡ ok (pos (set_bytes (cr.sha256 bytes) % bn.order))
  unfolding block_scalar mod_int emod
  block_scalar_mult bytes = rw ((==-false_iff bn.order 0).1 (omega (arith, laws.prime.above_one)))

  add_cost :
      (cost k : ℕ)
      → cost * suc k < 2 ^ 63
      → to_int64 (pos (cost * k) +ℤ to_int64 (pos cost)) ≡ pos (cost * suc k)
  unfolding ◌+ℤ◌
  add_cost cost k h =
      ap (λ (c : ℤ). to_int64 (pos (cost * k) +ℤ c)) (to_int64_small cost (omega (arith, h, grown)))
      ∙ ap (λ (n : ℕ). to_int64 (pos n)) (sym grown)
      ∙ to_int64_small (cost * suc k) h
    where
      grown : cost * suc k ≡ cost * k + cost
      grown = Nat.mul-suc cost k

  update_loop_mult :
      (x r m block_size k : ℕ) (target : ChameleonHash) (blocks : List Bytes)
      → x % bn.order ≢ 0
      → compute_hash cr (mult1 x) (mult2 r) (pos m) ≡ ok target
      → (metadata_size + block_size) * (k + length blocks) < 2 ^ 63
      → update_loop cr
          (mult1 x)
          (pos x)
          (pos r)
          (pos m)
          target
          block_size
          blocks
          (pos ((metadata_size + block_size) * k))
        ≡ ok (cost_row (metadata_size + block_size) k (length blocks))
  unfolding update_loop
  update_loop_mult x r m block_size k target [] nx hashed small = refl
  update_loop_mult x r m block_size k target (bytes ∷ blocks) nx hashed small =
      let new_m = set_bytes (cr.sha256 bytes) % bn.order in
      let (ch, n, run, same, _) = collision laws cr x r m new_m nx in
      rw (
        block_scalar_mult bytes,
        run,
        kept ch same,
        add_cost cost k (omega (arith, bounded, small)),
        update_loop_mult x r m block_size (suc k) target blocks nx hashed
            (omega (arith, small, ap (λ (j : ℕ). cost * j) shifted)),
      )
    where
      cost : ℕ
      cost = metadata_size + block_size

      shifted : suc k + length blocks ≡ k + suc (length blocks)
      shifted = omega arith

      bounded : cost * suc k ≤ cost * (k + suc (length blocks))
      bounded = Nat.mul-le-mul_left cost (omega arith)

      kept :
          (ch : ChameleonHash)
          → compute_hash cr (mult1 x) (mult2 r) (pos m) ≡ ok ch
          → equals ch target ≡ true
      kept ch same = ap (equals ch) (ok-injective (sym hashed ∙ same)) ∙ equals_refl ch

  -- A new point is the drawn multiple of the generator.
  pub new_point1 :
      (n : ℕ) (r rest : Reader)
      → random_field_element r ≡ ok (pos n, rest)
      → new_random_point type_g1 r ≡ ok ((pos n, mult1 n), rest)
  unfolding new_random_point new_point scalar_base_mult
  new_point1 n r rest drawn = rw drawn

  pub new_point2 :
      (n : ℕ) (r rest : Reader)
      → random_field_element r ≡ ok (pos n, rest)
      → new_random_point type_g2 r ≡ ok ((pos n, mult2 n), rest)
  unfolding new_random_point new_point scalar_base_mult
  new_point2 n r rest drawn = rw drawn

  -- If the two random scalars are drawn, and the last sum of the costs is below 2^63, then every
  -- replaced block keeps the chameleon hash of the first one, so runCSFigure2 does not return its
  -- error, and the k-th cost is k times 128 bytes and a block.
  pub run_cs_figure2_costs :
      (x r block_size : ℕ) (bytes : Bytes) (blocks : List Bytes) (reader reader1 reader2 : Reader)
      → random_field_element reader ≡ ok (pos x, reader1)
      → random_field_element reader1 ≡ ok (pos r, reader2)
      → (metadata_size + block_size) * length blocks < 2 ^ 63
      → run_cs_figure2 cr block_size bytes blocks reader
        ≡ ok (cost_row (metadata_size + block_size) 0 (length blocks), reader2)
  unfolding run_cs_figure2
  run_cs_figure2_costs x r block_size bytes blocks reader reader1 reader2 drawn drawn' small =
      let (above, below) = random_field_element-IsFieldElement reader (pos x) reader1 drawn in
      let nx : x % bn.order ≢ 0 = λ e. absurd (omega (arith, e, above, mod-eq_of_lt below)) in
      let m = set_bytes (cr.sha256 bytes) % bn.order in
      let (target, _, _, hashed, _) = collision laws cr x r m m nx in
      rw (
        new_point1 x reader reader1 drawn,
        new_point2 r reader1 reader2 drawn',
        block_scalar_mult bytes,
        hashed,
        ap
              (λ (n : ℕ).
                update_loop cr (mult1 x) (pos x) (pos r) (pos m) target block_size blocks (pos n))
              (sym (Nat.mul-zero (metadata_size + block_size)))
            ∙ update_loop_mult x r m block_size 0 target blocks nx hashed from_zero,
      )
    where
      from_zero : (metadata_size + block_size) * (0 + length blocks) < 2 ^ 63
      from_zero =
          subst (λ (j : ℕ). (metadata_size + block_size) * j < 2 ^ 63)
            (sym (Nat.zero-add (length blocks))) small

-- ===== src/Rand/Laws.antt =====
-- What rand.Int returns, and that its loop ends.
use proxyot.Prelude.{
  ℕ, zero, suc, ◌+◌, ◌-◌, ◌/◌, ◌<◌, ◌≡◌, ◌⊎◌, inl, inr, arith, length, take, drop, length-drop, ltb,
  leb, leb_iff, Bool-cases, eq-cases, ==_iff, ==-false_iff,
}
use proxyot.BigInt.{set_bytes}
use proxyot.Prelude.Result.{ok, err, read_error}
use proxyot.Rand.{Reader, bit_len, top_bits, mask_first, read_full, int_loop, rand_int}

int_loop-lt :
    (f k b max : ℕ) (r : Reader) (n : ℕ) (r' : Reader) → int_loop f k b max r ≡ ok (n, r') → n < max
unfolding int_loop
int_loop-lt zero k b max r n r' e = ground arith
int_loop-lt (suc f) k b max r n r' e = ground (arith, int_loop-lt f k b max (drop k r) n r')

int_loop-cases :
    (f k b max : ℕ) (r : Reader)
    → 0 < k
    → length r < f
    → ((n : ℕ) × (r' : Reader) × (int_loop f k b max r ≡ ok (n, r')))
      ⊎ (int_loop f k b max r ≡ err read_error)
unfolding int_loop read_full
int_loop-cases zero k b max r positive h = absurd (omega arith)
int_loop-cases (suc f) k b max r positive h = elim (Bool-cases (leb k (length r))) [
  | inr short ↦ inr (rw short)
  | inl long ↦
      let n = set_bytes (mask_first b (take k r)) in
      elim (Bool-cases (ltb n max)) [
        | inl below ↦ inl (n, drop k r, rw (long, below))
        | inr above ↦
            let left : length (drop k r) < f =
              omega (arith, length-drop k r, (leb_iff k (length r)).0 long) in
            elim (int_loop-cases f k b max (drop k r) positive left) [
              | inl (m, r', run) ↦ inl (m, r', rw (long, above, run))
              | inr run ↦ inr (rw (long, above, run))
            ]
      ]
]

-- The number is below the bound.
pub rand_int-lt : (r : Reader) (max n : ℕ) (r' : Reader) → rand_int r max ≡ ok (n, r') → n < max
unfolding rand_int
rand_int-lt r max n r' e =
    let len = bit_len (max - 1) in
    ground (arith, int_loop-lt (suc (length r)) ((len + 7) / 8) (top_bits len) max r n r')

-- The loop ends on every reader, with a number, or with the reader's error.
pub rand_int-cases :
    (r : Reader) (max : ℕ)
    → 0 < max
    → ((n : ℕ) × (r' : Reader) × (rand_int r max ≡ ok (n, r'))) ⊎ (rand_int r max ≡ err read_error)
unfolding rand_int
rand_int-cases r max positive =
    let some_max = (==-false_iff max 0).1 (λ e. omega arith) in
    let len = bit_len (max - 1) in
    elim (eq-cases len 0) [
      | inl e ↦ inl (0, r, rw (some_max, (==_iff len 0).1 e))
      | inr ne ↦
          elim (int_loop-cases (suc (length r)) ((len + 7) / 8) (top_bits len) max r (omega arith)
            (omega arith)) [
              | inl (n, r', run) ↦ inl (n, r', rw (some_max, (==-false_iff len 0).1 ne, run))
              | inr run ↦ inr (rw (some_max, (==-false_iff len 0).1 ne, run))
            ]
    ]

int_loop-shrinks :
    (f k b max : ℕ) (r : Reader) (n : ℕ) (r' : Reader)
    → 0 < k
    → int_loop f k b max r ≡ ok (n, r')
    → length r' < length r
unfolding int_loop
int_loop-shrinks zero k b max r n r' pos e = ground arith
int_loop-shrinks (suc f) k b max r n r' pos e =
    ground (arith, length-drop k r, int_loop-shrinks f k b max (drop k r) n r')

bit_len-pos : (n : ℕ) → 0 < n → 0 < bit_len n
unfolding bit_len
bit_len-pos zero h = elim h [ ]
bit_len-pos (suc n) h = ground arith

-- Where more than one number can be drawn, a drawing takes a byte at least.
pub rand_int-shrinks :
    (r : Reader) (max n : ℕ) (r' : Reader)
    → 1 < max
    → rand_int r max ≡ ok (n, r')
    → length r' < length r
unfolding rand_int
rand_int-shrinks r max n r' h e =
    let len = bit_len (max - 1) in
    ground (
      arith,
      bit_len-pos (max - 1),
      int_loop-shrinks (suc (length r)) ((len + 7) / 8) (top_bits len) max r n r',
    )

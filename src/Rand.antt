-- ===== src/Rand.antt =====
-- crypto/rand and io.ReadFull of Go's standard library, as curve/curve.go and pre/ciphering.go
-- use them. A reader is the list of the bytes that it will still give; at its end it fails.
pub mod Laws
use proxyot.Prelude.{
  ℕ, zero, suc, ◌+◌, ◌-◌, ◌/◌, ◌%◌, ◌^◌, ◌==◌, ltb, leb, Bool, true, false, List, [], ◌∷◌, length,
  take, drop, if◌then◌else◌,
}
use proxyot.Prelude.Result.{Result, ok, err, panic, diverged, read_error, bad_argument, ◌>>=◌}
use proxyot.BigInt.{set_bytes}

abbrev pub Reader : Type 0
Reader = List ℕ

-- io.ReadFull(r, buf) with len(buf) = n
unfoldable pub read_full : ℕ → Reader → Result (List ℕ × Reader)
read_full n r = if leb n (length r) then ok (take n r, drop n r) else err read_error

-- n.BitLen(), the number of binary digits; the fuel is the number itself.
unfoldable pub bit_len_loop : ℕ → ℕ → ℕ
bit_len_loop zero n = 0
bit_len_loop (suc f) n = let rest = bit_len_loop f (n / 2) in if n == 0 then 0 else suc rest

unfoldable pub bit_len : ℕ → ℕ
unfolding bit_len_loop
bit_len n = bit_len_loop n n

-- `bytes[0] &= uint8(int(1<<b) - 1)`
abbrev pub mask_first : ℕ → List ℕ → List ℕ
mask_first b [] = []
mask_first b (x ∷ xs) = (x % 2 ^ b) ∷ xs

abbrev pub top_bits : ℕ → ℕ
top_bits n = if n % 8 == 0 then 8 else n % 8

-- The rounds of rand.Int: k bytes at a time, until the number that they spell is below max.
unfoldable pub int_loop : ℕ → ℕ → ℕ → ℕ → Reader → Result (ℕ × Reader)
unfolding read_full set_bytes
int_loop zero k b max r = diverged
int_loop (suc f) k b max r = do
  (bytes, rest) ← read_full k r
  let n = set_bytes (mask_first b bytes)
  let again = int_loop f k b max rest
  if ltb n max then ok (n, rest) else again

-- rand.Int(r, max). Each round takes a byte at least, so one round more than r has bytes is enough.
unfoldable pub rand_int : Reader → ℕ → Result (ℕ × Reader)
rand_int r max =
    if max == 0
    then panic bad_argument
    else let len = bit_len (max - 1) in
      if len == 0 then ok (0, r) else int_loop (suc (length r)) ((len + 7) / 8) (top_bits len) max r

-- ===== src/Pb/Varint.antt =====
-- Varints of node/protocol/pb/msg.pb.go: what is written is read back, in as many bytes as sovMsg says.
use native.Mathlib.Nat
use native.Mathlib.Nat.{mod-eq_of_lt, mul_assoc}
use proxyot.Prelude.{
  ℕ, zero, suc, ◌+◌, ◌*◌, ◌/◌, ◌%◌, ◌^◌, ◌<◌, ◌≤◌, leb, ◌≡◌, refl, sym, ap, ◌∙◌, arith, some, [],
  ◌∷◌, ◌++◌, length, leb_iff, leb-false_iff, ltb_iff, ltb-false_iff, ==_iff, ==-false_iff,
  Bool-cases, inl, inr, true, false,
}
use proxyot.Crypto.{Bytes}
use proxyot.Pb.{encode_loop, encode_varint_msg, sov_loop, sov_msg, varint_loop, read_varint}

length-encode_loop : (f v : ℕ) → length (encode_loop f v) ≡ sov_loop f v
unfolding encode_loop sov_loop
length-encode_loop zero v = refl
length-encode_loop (suc f) v = elim (Bool-cases (leb 128 v)) [
  | inl e ↦
      let big = (leb_iff 128 v).0 e in
      rw (e, (==-false_iff (v / 128) 0).1 (λ z. omega arith), length-encode_loop f (v / 128))
  | inr e ↦ let small = (leb-false_iff 128 v).0 e in rw (e, (==_iff (v / 128) 0).1 (omega arith))
]

pub length-encode_varint_msg : (v : ℕ) → length (encode_varint_msg v) ≡ sov_msg v
unfolding encode_varint_msg sov_msg
length-encode_varint_msg v = length-encode_loop 9 v

encode_more :
    (f v : ℕ) → leb 128 v ≡ true → encode_loop (suc f) v ≡ (v % 128 + 128) ∷ encode_loop f (v / 128)
unfolding encode_loop
encode_more f v e = rw e

encode_last : (f v : ℕ) → leb 128 v ≡ false → encode_loop (suc f) v ≡ v % 256 ∷ []
unfolding encode_loop
encode_last f v e = rw e

module _ (size : ℕ) where
  last_byte :
      (g v w acc : ℕ) (rest : Bytes)
      → v < 128
      → acc + v * w < size
      → varint_loop size (suc g) w acc (v % 256 ∷ rest) ≡ some (acc + v * w, rest)
  unfolding varint_loop
  last_byte g v w acc rest small fits =
      rw (whole, (ltb_iff v 128).1 small, mod-eq_of_lt small, mod-eq_of_lt fits)
    where
      whole : v % 256 ≡ v
      whole = omega (arith, small)

  -- A byte with the high bit, and what follows it.
  more_bytes :
      (g v w acc : ℕ) (bytes : Bytes)
      → acc + v * w < size
      → varint_loop size (suc g) w acc ((v % 128 + 128) ∷ bytes)
        ≡ varint_loop size g (w * 128) (acc + v % 128 * w) bytes
  unfolding varint_loop
  more_bytes g v w acc bytes fits =
      rw ((ltb-false_iff (v % 128 + 128) 128).1 (omega arith), low, mod-eq_of_lt partial)
    where
      low : (v % 128 + 128) % 128 ≡ v % 128
      low = omega arith

      partial : acc + v % 128 * w < size
      partial =
          omega (arith, fits, Nat.mul-le-mul_right w (let le : v % 128 ≤ v = omega arith in le))

  split : (v w acc : ℕ) → acc + v % 128 * w + v / 128 * (w * 128) ≡ acc + v * w
  split v w acc =
      let whole : v ≡ 128 * (v / 128) + v % 128 = omega arith in
      omega (arith, ap (λ (x : ℕ). x * w) whole)

  varint_loop-encode_loop :
      (f g v w acc : ℕ) (rest : Bytes)
      → v < 128 ^ suc f
      → f < g
      → acc + v * w < size
      → varint_loop size g w acc (encode_loop f v ++ rest) ≡ some (acc + v * w, rest)
  unfolding encode_loop
  varint_loop-encode_loop f zero v w acc rest fits enough small = absurd (omega arith)
  varint_loop-encode_loop zero (suc g) v w acc rest fits enough small =
      last_byte g v w acc rest (omega (arith, fits)) small
  varint_loop-encode_loop (suc f) (suc g) v w acc rest fits enough small =
      elim (Bool-cases (leb 128 v)) [
        | inl e ↦
            ap (λ (bs : Bytes). varint_loop size (suc g) w acc (bs ++ rest)) (encode_more f v e)
            ∙ more_bytes g v w acc (encode_loop f (v / 128) ++ rest) small
            ∙ varint_loop-encode_loop f g (v / 128) (w * 128) (acc + v % 128 * w) rest
                (omega (arith, fits, Nat.pow-suc 128 (suc f))) (omega arith)
                (omega (arith, split v w acc, small))
            ∙ ap (λ (x : ℕ). some (x, rest)) (split v w acc)
        | inr e ↦
            ap (λ (bs : Bytes). varint_loop size (suc g) w acc (bs ++ rest)) (encode_last f v e)
            ∙ last_byte g v w acc rest ((leb-false_iff 128 v).0 e) small
      ]

  pub read_varint-encode_varint_msg :
      (v : ℕ) (rest : Bytes)
      → v < size
      → v < 2 ^ 64
      → read_varint size (encode_varint_msg v ++ rest) ≡ some (v, rest)
  unfolding read_varint encode_varint_msg
  read_varint-encode_varint_msg v rest fits small =
      varint_loop-encode_loop 9 10 v 1 0 rest (omega (arith, small)) (omega arith)
        (omega (arith, fits))
      ∙ ap (λ (x : ℕ). some (x, rest)) (omega arith)

-- A tag is one byte.
pub read_varint-tag :
    (tag : ℕ) (bytes : Bytes) → tag < 128 → read_varint (2 ^ 64) (tag ∷ bytes) ≡ some (tag, bytes)
unfolding encode_varint_msg
read_varint-tag tag bytes small =
    ap (λ (t : ℕ). read_varint (2 ^ 64) (t ∷ bytes)) (let e : tag ≡ tag % 256 = omega arith in e)
    ∙ sym (
        ap (λ (bs : Bytes). read_varint (2 ^ 64) (bs ++ bytes))
          (encode_last 8 tag ((leb-false_iff 128 tag).1 small)))
    ∙ read_varint-encode_varint_msg (2 ^ 64) tag bytes (omega arith) (omega arith)

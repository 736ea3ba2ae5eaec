-- ===== src/Pre/Padding.antt =====
-- addPKCSPadding and removePKCSPadding of pre/ciphering.go.
use proxyot.Prelude.{
  ℕ, zero, suc, ◌+◌, ◌-◌, ◌*◌, ◌/◌, ◌%◌, ◌≤◌, ◌<◌, ◌≡◌, ◌⊎◌, inl, inr, Bool-cases, refl, ap, ◌∙◌,
  arith, [], ◌∷◌, ◌++◌, ltb, ◌||◌, if◌then◌else◌, length, take, replicate, length-append,
  length-replicate, take-append_eq, length-take,
}
use proxyot.Prelude.Result.{Result, ok, err, panic, invalid_padding, index_out_of_range, ◌>>=◌}
use proxyot.Crypto.{Bytes, block_size}

-- append(src, padtext...): every byte that is added says how many there are.
unfoldable pub add_padding : Bytes → Bytes
add_padding src =
    let padding = block_size - length src % block_size in src ++ replicate padding (padding % 256)

-- `src[length-1]`, a fault where there is no byte
abbrev pub last_byte : Bytes → Result ℕ
last_byte [] = panic index_out_of_range
last_byte (b ∷ []) = ok b
last_byte (b ∷ c ∷ src) = last_byte (c ∷ src)

unfoldable pub remove_padding : Bytes → Result Bytes
remove_padding src = last_byte src >>= λ pad_length.
    if ltb block_size pad_length || ltb (length src) block_size
    then err invalid_padding
    else ok (take (length src - pad_length) src)

-- Padding fills up to whole blocks, and adds 1 to 16 bytes.
pub length-add_padding :
    (src : Bytes)
    → (length (add_padding src) % block_size ≡ 0)
      × (length src < length (add_padding src))
      × (length (add_padding src) ≤ length src + block_size)
unfolding add_padding
length-add_padding src =
    let padding = block_size - length src % block_size in
    omega (
      arith,
      length-append src (replicate padding (padding % 256)),
      length-replicate padding (padding % 256),
    )

-- The exact length: the next multiple of 16.
pub length-add_padding_eq :
    (src : Bytes) → length (add_padding src) ≡ block_size * (length src / block_size + 1)
length-add_padding_eq src = omega (arith, length-add_padding src)

last_byte-replicate : (n v : ℕ) → last_byte (replicate (suc n) v) ≡ ok v
last_byte-replicate zero v = refl
last_byte-replicate (suc n) v = last_byte-replicate n v

last_byte-append : (src : Bytes) (n v : ℕ) → last_byte (src ++ replicate (suc n) v) ≡ ok v
last_byte-append [] n v = last_byte-replicate n v
last_byte-append (b ∷ []) n v = last_byte-replicate n v
last_byte-append (b ∷ c ∷ src) n v = last_byte-append (c ∷ src) n v

remove_block :
    (src : Bytes) (n : ℕ)
    → suc n ≤ block_size
    → block_size ≤ length src + suc n
    → remove_padding (src ++ replicate (suc n) (suc n)) ≡ ok src
unfolding remove_padding
remove_block src n small long =
    let padtext = replicate (suc n) (suc n) in
    let total : length (src ++ padtext) ≡ length src + suc n =
      length-append src padtext
      ∙ ap (λ (k : ℕ). length src + k) (length-replicate (suc n) (suc n)) in
    rw (last_byte-append src n (suc n), total)
      (ground (
        arith,
        take-append_eq (length src) src padtext refl,
        ap (λ (k : ℕ). take k (src ++ padtext))
            (let e : length src + suc n - suc n ≡ length src = omega arith in e),
      ))

-- What was padded comes back.
pub remove_padding-add_padding : (src : Bytes) → remove_padding (add_padding src) ≡ ok src
unfolding add_padding
remove_padding-add_padding src =
    ap (λ (k : ℕ). remove_padding (src ++ replicate k (k % 256))) counted
    ∙ ap (λ (v : ℕ). remove_padding (src ++ replicate (suc n) v)) (omega arith)
    ∙ remove_block src n (omega arith) (omega arith)
  where
    n : ℕ
    n = block_size - length src % block_size - 1

    counted : block_size - length src % block_size ≡ suc n
    counted = omega arith

last_byte-cons : (b : ℕ) (src : Bytes) → (v : ℕ) × (last_byte (b ∷ src) ≡ ok v)
last_byte-cons b [] = (b, refl)
last_byte-cons b (c ∷ src) = last_byte-cons c src

-- Of 16 bytes and more, some are removed or the padding is refused; nothing faults.
pub remove_padding-cases :
    (src : Bytes)
    → block_size ≤ length src
    → ((plain : Bytes) × (remove_padding src ≡ ok plain) × (length plain ≤ length src))
      ⊎ (remove_padding src ≡ err invalid_padding)
unfolding remove_padding
remove_padding-cases [] h = absurd (omega arith)
remove_padding-cases (b ∷ src) h =
    let (v, e) = last_byte-cons b src in
    elim (Bool-cases (ltb block_size v || ltb (length (b ∷ src)) block_size)) [
      | inl bad ↦ inr (rw (e, bad))
      | inr good ↦ inl (
        take (length (b ∷ src) - v) (b ∷ src),
        rw (e, good),
        omega (arith, length-take (length (b ∷ src) - v) (b ∷ src)),
      )
    ]

-- ===== src/Pre/Cbc.antt =====
-- CBC mode of Go's crypto/cipher over one block cipher, as pre/ciphering.go uses it: each block is
-- joined with the ciphertext of the one before, the first with the initialisation vector.
use Prim.Native.Nat.{bit_xor}
use proxyot.Prelude.{
  ℕ, zero, suc, ◌+◌, ◌*◌, ◌≤◌, ◌≡◌, refl, ap, ap₂, ◌∙◌, arith, [], ◌∷◌, ◌++◌, length, take, drop,
  length-append, length-take, length-drop, take-append_eq, drop-append_eq, take-append-drop,
}
use proxyot.Prelude.Xor.{bit_xor-cancel}
use proxyot.Crypto.{Bytes, Crypto, IsCrypto, block_size}

unfoldable pub xor_bytes : Bytes → Bytes → Bytes
xor_bytes [] ys = []
xor_bytes (x ∷ xs) [] = []
xor_bytes (x ∷ xs) (y ∷ ys) = bit_xor x y ∷ xor_bytes xs ys

module _ (cr : Crypto) where
  -- mode.CryptBlocks(dst, src) of NewCBCEncrypter, for n blocks
  unfoldable pub encrypt_blocks : Bytes → Bytes → ℕ → Bytes → Bytes
  encrypt_blocks key prev zero src = []
  encrypt_blocks key prev (suc n) src =
      let c = cr.encrypt_block key (xor_bytes (take block_size src) prev) in
      c ++ encrypt_blocks key c n (drop block_size src)

  -- mode.CryptBlocks(dst, src) of NewCBCDecrypter
  unfoldable pub decrypt_blocks : Bytes → Bytes → ℕ → Bytes → Bytes
  decrypt_blocks key prev zero src = []
  decrypt_blocks key prev (suc n) src =
      let c = take block_size src in
      xor_bytes (cr.decrypt_block key c) prev ++ decrypt_blocks key c n (drop block_size src)

length-xor_bytes : (xs ys : Bytes) → length xs ≤ length ys → length (xor_bytes xs ys) ≡ length xs
unfolding xor_bytes
length-xor_bytes [] ys h = refl
length-xor_bytes (x ∷ xs) [] h = absurd (omega arith)
length-xor_bytes (x ∷ xs) (y ∷ ys) h = ap suc (length-xor_bytes xs ys (omega arith))

xor_bytes-cancel : (xs ys : Bytes) → length xs ≤ length ys → xor_bytes (xor_bytes xs ys) ys ≡ xs
unfolding xor_bytes
xor_bytes-cancel [] ys h = refl
xor_bytes-cancel (x ∷ xs) [] h = absurd (omega arith)
xor_bytes-cancel (x ∷ xs) (y ∷ ys) h =
    ap₂ ◌∷◌ (bit_xor-cancel x y) (xor_bytes-cancel xs ys (omega arith))

module _ (cr : Crypto) (laws : IsCrypto cr) (key : Bytes) where
  -- One block of the encryption has its length.
  length-block :
      (prev src : Bytes)
      → length prev ≡ block_size
      → block_size ≤ length src
      → length (cr.encrypt_block key (xor_bytes (take block_size src) prev)) ≡ block_size
  length-block prev src hp hs =
      laws.length-encrypt_block key (xor_bytes (take block_size src) prev) (
        length-xor_bytes (take block_size src) prev (omega (arith, length-take block_size src))
        ∙ omega (arith, length-take block_size src))

  pub length-encrypt_blocks :
      (prev : Bytes) (n : ℕ) (src : Bytes)
      → length prev ≡ block_size
      → length src ≡ block_size * n
      → length (encrypt_blocks cr key prev n src) ≡ length src
  unfolding encrypt_blocks
  length-encrypt_blocks prev zero src hp hs = omega arith
  length-encrypt_blocks prev (suc n) src hp hs =
      let c = cr.encrypt_block key (xor_bytes (take block_size src) prev) in
      let hc : length c ≡ block_size = length-block prev src hp (omega arith) in
      let hd : length (drop block_size src) ≡ block_size * n =
        omega (arith, length-drop block_size src) in
      length-append c (encrypt_blocks cr key c n (drop block_size src))
      ∙ ap₂ (λ (s t : ℕ). s + t) hc (length-encrypt_blocks c n (drop block_size src) hc hd)
      ∙ omega arith

  -- Decryption under the same key and initialisation vector gives whole blocks back.
  pub decrypt_blocks-encrypt_blocks :
      (prev : Bytes) (n : ℕ) (src : Bytes)
      → length key ≡ 32
      → length prev ≡ block_size
      → length src ≡ block_size * n
      → decrypt_blocks cr key prev n (encrypt_blocks cr key prev n src) ≡ src
  unfolding encrypt_blocks decrypt_blocks
  decrypt_blocks-encrypt_blocks prev zero [] hk hp hs = refl
  decrypt_blocks-encrypt_blocks prev zero (b ∷ src) hk hp hs = absurd (omega arith)
  decrypt_blocks-encrypt_blocks prev (suc n) src hk hp hs =
      let c = cr.encrypt_block key (xor_bytes (take block_size src) prev) in
      let more = encrypt_blocks cr key c n (drop block_size src) in
      let hc : length c ≡ block_size = length-block prev src hp (omega arith) in
      let ht : length (take block_size src) ≡ block_size =
        omega (arith, length-take block_size src) in
      let hd : length (drop block_size src) ≡ block_size * n =
        omega (arith, length-drop block_size src) in
      let hx : length (xor_bytes (take block_size src) prev) ≡ block_size =
        length-xor_bytes (take block_size src) prev (omega arith) ∙ ht in
      ap₂ (λ (b m : Bytes). xor_bytes (cr.decrypt_block key b) prev ++ decrypt_blocks cr key b n m)
        (take-append_eq block_size c more hc) (drop-append_eq block_size c more hc)
      ∙ ap₂ (λ (s t : Bytes). s ++ t)
          (ap (λ (b : Bytes). xor_bytes b prev)
              (laws.decrypt-encrypt key (xor_bytes (take block_size src) prev) hk hx)
            ∙ xor_bytes-cancel (take block_size src) prev (omega arith))
          (decrypt_blocks-encrypt_blocks c n (drop block_size src) hk hc hd)
      ∙ take-append-drop block_size src

  pub length-decrypt_blocks :
      (prev : Bytes) (n : ℕ) (src : Bytes)
      → length prev ≡ block_size
      → length src ≡ block_size * n
      → length (decrypt_blocks cr key prev n src) ≡ length src
  unfolding decrypt_blocks
  length-decrypt_blocks prev zero src hp hs = omega arith
  length-decrypt_blocks prev (suc n) src hp hs =
      let c = take block_size src in
      let hc : length c ≡ block_size = omega (arith, length-take block_size src) in
      let hd : length (drop block_size src) ≡ block_size * n =
        omega (arith, length-drop block_size src) in
      let plain = cr.decrypt_block key c in
      let hb : length plain ≡ block_size = laws.length-decrypt_block key c hc in
      length-append (xor_bytes plain prev) (decrypt_blocks cr key c n (drop block_size src))
      ∙ ap₂ (λ (s t : ℕ). s + t) (length-xor_bytes plain prev (omega arith) ∙ hb)
          (length-decrypt_blocks c n (drop block_size src) hc hd)
      ∙ omega arith

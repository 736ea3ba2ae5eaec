-- ===== src/Pre/Cipher/Authentic.antt =====
-- What a DecryptClosure does with an arbitrary text.
use proxyot.Prelude.{
  Bool-cases, ◌+◌, ◌-◌, ◌/◌, ◌%◌, ◌≤◌, ◌<◌, ◌==◌, leb, true, false, length, take, drop, ◌≡◌, ◌≢◌,
  ◌⊎◌, inl, inr, ap, ◌∙◌, arith, length-take, length-drop, ==_iff, ==-false_iff, leb_iff,
  leb-false_iff,
}
use proxyot.Prelude.Result.{Result, ok, err, input_too_short, invalid_padding, invalid_mac, ◌>>=◌}
use proxyot.Prelude.Equal.{bytes-cases, bytes_equal, bytes_equal_refl, bytes_equal-false}
use proxyot.Crypto.{Bytes, Crypto, IsCrypto, block_size, hash_size}
use proxyot.Pre.Padding.{remove_padding, remove_padding-cases}
use proxyot.Pre.Cbc.{decrypt_blocks, length-decrypt_blocks}
use proxyot.Pre.Cipher.{key_e, key_m, new_decrypt_closure}
use proxyot.Pre.Cipher.RoundTrip.{decrypt_passed}

-- The last 32 bytes, and the bytes before them.
abbrev pub checksum : Bytes → Bytes
checksum text = drop (length text - hash_size) text

abbrev pub body : Bytes → Bytes
body text = take (length text - hash_size) text

-- The blocks between the first 16 bytes and the checksum, decrypted with these 16 bytes as the vector.
abbrev pub decrypted : Crypto → Bytes → Bytes → Bytes
decrypted cr key text =
    let blocks = drop block_size (body text) in
    decrypt_blocks cr (key_e cr key) (take block_size text) (length blocks / block_size) blocks

module _ (cr : Crypto) (laws : IsCrypto cr) (key text : Bytes) where
  -- What stands in the closure once the text is read, by the checks in their order.
  refused_short :
      leb (block_size + block_size + hash_size) (length text) ≡ false
      → new_decrypt_closure cr (ok text) ok key ≡ err input_too_short
  unfolding new_decrypt_closure
  refused_short e = rw e

  refused_length :
      leb (block_size + block_size + hash_size) (length text) ≡ true
      → ((length text - block_size - hash_size) % block_size == 0) ≡ false
      → new_decrypt_closure cr (ok text) ok key ≡ err invalid_padding
  unfolding new_decrypt_closure
  refused_length e f = rw (e, f)

  refused_mac :
      leb (block_size + block_size + hash_size) (length text) ≡ true
      → ((length text - block_size - hash_size) % block_size == 0) ≡ true
      → bytes_equal (checksum text) (cr.hmac (key_m cr key) (body text)) ≡ false
      → new_decrypt_closure cr (ok text) ok key ≡ err invalid_mac
  unfolding new_decrypt_closure
  refused_mac e f g = rw (e, f, g)

  accepted :
      leb (block_size + block_size + hash_size) (length text) ≡ true
      → ((length text - block_size - hash_size) % block_size == 0) ≡ true
      → bytes_equal (checksum text) (cr.hmac (key_m cr key) (body text)) ≡ true
      → ((plain : Bytes) × (new_decrypt_closure cr (ok text) ok key ≡ ok plain)
          × (remove_padding (decrypted cr key text) ≡ ok plain)
          × (length plain + 48 ≤ length text))
        ⊎ ((new_decrypt_closure cr (ok text) ok key ≡ err invalid_padding)
            × (remove_padding (decrypted cr key text) ≡ err invalid_padding))
  accepted e f g = elim (remove_padding-cases out (omega (arith, same, long))) [
    | inl (plain, p, q) ↦
        inl (plain, run ∙ ap (λ (x : Result Bytes). x >>= ok) p, p, omega (arith, same, long))
    | inr p ↦ inr (run ∙ ap (λ (x : Result Bytes). x >>= ok) p, p)
  ]
    where
      iv : Bytes
      iv = take block_size text

      blocks : Bytes
      blocks = drop block_size (body text)

      out : Bytes
      out = decrypted cr key text

      run : new_decrypt_closure cr (ok text) ok key ≡ (remove_padding out >>= ok)
      run = decrypt_passed cr laws ok key text e f g

      long : 64 ≤ length text
      long = (leb_iff _ (length text)).0 e

      whole : (length text - block_size - hash_size) % block_size ≡ 0
      whole = (==_iff _ 0).0 f

      length-blocks : length blocks ≡ length text - block_size - hash_size
      length-blocks = omega (
        arith,
        length-drop block_size (body text),
        length-take (length text - hash_size) text,
        long,
      )

      same : length out ≡ length text - block_size - hash_size
      same =
          length-decrypt_blocks cr laws (key_e cr key) iv (length blocks / block_size) blocks
            (omega (arith, length-take block_size text, long)) (omega (arith, length-blocks, whole))
          ∙ length-blocks

  -- A text of fewer than 64 bytes is refused as too short; else one whose length less 48 is no
  -- multiple of 16, as wrongly padded; else one whose last 32 bytes are not the checksum of the others
  -- under the derived key, as forged. Of any other text, the blocks between the first 16 and the last
  -- 32 bytes are decrypted, with the first 16 as the vector: the closure gives these bytes without
  -- their padding, at least 48 fewer than the text has, or refuses the text for its padding.
  pub decrypt_outcomes :
      ((length text < 64) × (new_decrypt_closure cr (ok text) ok key ≡ err input_too_short))
      ⊎ ((64 ≤ length text)
          × ((length text - 48) % 16 ≢ 0)
          × (new_decrypt_closure cr (ok text) ok key ≡ err invalid_padding))
      ⊎ ((64 ≤ length text)
          × ((length text - 48) % 16 ≡ 0)
          × (checksum text ≢ cr.hmac (key_m cr key) (body text))
          × (new_decrypt_closure cr (ok text) ok key ≡ err invalid_mac))
      ⊎ ((64 ≤ length text)
          × ((length text - 48) % 16 ≡ 0)
          × (checksum text ≡ cr.hmac (key_m cr key) (body text))
          × (((plain : Bytes) × (new_decrypt_closure cr (ok text) ok key ≡ ok plain)
                × (remove_padding (decrypted cr key text) ≡ ok plain)
                × (length plain + 48 ≤ length text))
              ⊎ ((new_decrypt_closure cr (ok text) ok key ≡ err invalid_padding)
                  × (remove_padding (decrypted cr key text) ≡ err invalid_padding))))
  decrypt_outcomes = elim (Bool-cases (leb (block_size + block_size + hash_size) (length text))) [
    | inr short ↦ inl ((leb-false_iff _ (length text)).0 short, refused_short short)
    | inl long ↦ elim (Bool-cases ((length text - block_size - hash_size) % block_size == 0)) [
      | inr odd ↦ inr (
          inl (
            (leb_iff _ (length text)).0 long,
            λ e. (==-false_iff _ 0).0 odd (omega arith),
            refused_length long odd,
          ))
      | inl whole ↦
          let fits : (length text - 48) % 16 ≡ 0 = omega (arith, (==_iff _ 0).0 whole) in
          elim (bytes-cases (checksum text) (cr.hmac (key_m cr key) (body text))) [
            | inr forged ↦ inr (
                inr (
                  inl (
                    (leb_iff _ (length text)).0 long,
                    fits,
                    forged,
                    refused_mac long whole (bytes_equal-false _ _ forged),
                  )))
            | inl valid ↦ inr (
                inr (
                  inr (
                    (leb_iff _ (length text)).0 long,
                    fits,
                    valid,
                    accepted long whole (
                        ap (λ (s : Bytes). bytes_equal s (cr.hmac (key_m cr key) (body text))) valid
                        ∙ bytes_equal_refl (cr.hmac (key_m cr key) (body text))),
                  )))
          ]
    ]
  ]

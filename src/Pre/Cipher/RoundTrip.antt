-- ===== src/Pre/Cipher/RoundTrip.antt =====
-- What an EncryptClosure writes, a DecryptClosure with the same key reads back.
use proxyot.Prelude.{
  ◌⊎◌, ℕ, ◌+◌, ◌-◌, ◌*◌, ◌/◌, ◌%◌, ◌≤◌, ◌<◌, ◌==◌, leb, true, false, ◌++◌, if◌then◌else◌, length,
  take, drop, replicate, ◌≡◌, sym, ap, ap₂, ◌∙◌, arith, length-take, length-append, take-append_eq,
  drop-append_eq, ==_iff, leb_iff, leb-false_iff, Bool-cases, inl, inr, append_assoc,
}
use proxyot.Prelude.Result.{Result, ok, err, read_error, ◌>>=◌, ok-injective}
use proxyot.Prelude.Equal.{bytes_equal, bytes_equal_refl, copy-whole}
use proxyot.Rand.{Reader}
use proxyot.Crypto.{Bytes, Crypto, IsCrypto, block_size, hash_size}
use proxyot.Pre.Padding.{
  add_padding, remove_padding, length-add_padding, length-add_padding_eq,
  remove_padding-add_padding,
}
use proxyot.Pre.Cbc.{
  encrypt_blocks, decrypt_blocks, length-encrypt_blocks, decrypt_blocks-encrypt_blocks,
}
use proxyot.Pre.Cipher.{key_e, key_m, sealed_text, new_encrypt_closure, new_decrypt_closure}

module _ (cr : Crypto) (laws : IsCrypto cr) where
  pub length-key_e : (key : Bytes) → length (key_e cr key) ≡ 32
  unfolding key_e
  length-key_e key = omega (arith, length-take 32 (cr.sha512 key), laws.length-sha512 key)

  -- The text for a key, an initialisation vector and a message.
  abbrev pub text_of : Bytes → Bytes → Bytes → Bytes
  text_of key iv m =
      let body = sealed_text cr key iv (add_padding m) in body ++ cr.hmac (key_m cr key) body

  -- With 16 bytes at hand the encryption writes the text for them; with fewer it fails.
  pub new_encrypt_closure_lem :
      {W : Type 0} (write : Bytes → Result W) (key m : Bytes) (r : Reader)
      → new_encrypt_closure cr (ok m) write key r ≡ (
          if leb block_size (length r)
          then (write (text_of key (take block_size r) m) >>= λ w. ok (w, drop block_size r))
          else err read_error)
  unfolding new_encrypt_closure
  new_encrypt_closure_lem write key m r = elim (Bool-cases (leb block_size (length r))) [
    | inl e ↦ rw (
      e,
      length-key_e key,
      copy-whole (replicate hash_size 0) (cr.hmac (key_m cr key) _)
          (laws.length-hmac (key_m cr key) _),
    )
    | inr e ↦ rw e
  ]

  -- A text that passes the checks is decrypted.
  pub decrypt_passed :
      {W : Type 0} (write : Bytes → Result W) (key text : Bytes)
      → leb (block_size + block_size + hash_size) (length text) ≡ true
      → ((length text - block_size - hash_size) % block_size == 0) ≡ true
      → bytes_equal
          (drop (length text - hash_size) text)
          (cr.hmac (key_m cr key) (take (length text - hash_size) text))
        ≡ true
      → new_decrypt_closure cr (ok text) write key ≡ (
          remove_padding (
            decrypt_blocks cr
              (key_e cr key)
              (take block_size text)
              (length (drop block_size (take (length text - hash_size) text)) / block_size)
              (drop block_size (take (length text - hash_size) text)))
          >>= write)
  unfolding new_decrypt_closure
  decrypt_passed write key text long whole valid = rw (long, whole, valid, length-key_e key)

  -- A written text: its length, its checksum, its parts.
  module _ (key iv m : Bytes) (iv_block : length iv ≡ block_size) where
    abbrev padded : Bytes
    padded = add_padding m

    abbrev rounds : ℕ
    rounds = length padded / block_size

    abbrev blocks : Bytes
    blocks = encrypt_blocks cr (key_e cr key) iv rounds padded

    whole_blocks : length padded ≡ block_size * rounds
    whole_blocks = omega (arith, length-add_padding m)

    length-blocks : length blocks ≡ length padded
    length-blocks =
        length-encrypt_blocks cr laws (key_e cr key) iv rounds padded iv_block whole_blocks

    length-body : length (iv ++ blocks) ≡ block_size + length padded
    length-body = omega (arith, length-append iv blocks, length-blocks)

    pub length-text : length (text_of key iv m) ≡ block_size + length padded + hash_size
    length-text =
        length-append (iv ++ blocks) (cr.hmac (key_m cr key) (iv ++ blocks))
        ∙ ap₂ (λ (s t : ℕ). s + t) length-body (laws.length-hmac (key_m cr key) (iv ++ blocks))

    cut : length (iv ++ blocks) ≡ length (text_of key iv m) - hash_size
    cut = omega (arith, length-text, length-body)

    body_of : take (length (text_of key iv m) - hash_size) (text_of key iv m) ≡ iv ++ blocks
    body_of = take-append_eq _ (iv ++ blocks) (cr.hmac (key_m cr key) (iv ++ blocks)) cut

    mac_of :
        drop (length (text_of key iv m) - hash_size) (text_of key iv m)
        ≡ cr.hmac (key_m cr key) (iv ++ blocks)
    mac_of = drop-append_eq _ (iv ++ blocks) (cr.hmac (key_m cr key) (iv ++ blocks)) cut

    iv_of : take block_size (text_of key iv m) ≡ iv
    iv_of =
        ap (take block_size) (append_assoc iv blocks (cr.hmac (key_m cr key) (iv ++ blocks)))
        ∙ take-append_eq block_size iv _ iv_block

    blocks_of : drop block_size (iv ++ blocks) ≡ blocks
    blocks_of = drop-append_eq block_size iv blocks iv_block

    decrypted : decrypt_blocks cr (key_e cr key) iv (length blocks / block_size) blocks ≡ padded
    decrypted =
        ap (λ (n : ℕ). decrypt_blocks cr (key_e cr key) iv (n / block_size) blocks) length-blocks
        ∙ decrypt_blocks-encrypt_blocks cr laws (key_e cr key) iv rounds padded (length-key_e key)
            iv_block whole_blocks

    pub new_decrypt_closure-text_of :
        {W : Type 0} (write : Bytes → Result W)
        → new_decrypt_closure cr (ok (text_of key iv m)) write key ≡ write m
    new_decrypt_closure-text_of write =
        decrypt_passed write key (text_of key iv m)
          ((leb_iff _ (length (text_of key iv m))).1
            (omega (arith, length-text, length-add_padding m, whole_blocks)))
          ((==_iff _ 0).1 (omega (arith, length-text, length-add_padding m)))
          (ap₂ (λ (s t : Bytes). bytes_equal s (cr.hmac (key_m cr key) t)) mac_of body_of
            ∙ bytes_equal_refl (cr.hmac (key_m cr key) (iv ++ blocks)))
        ∙ ap₂
            (λ (v bs : Bytes).
              remove_padding (decrypt_blocks cr (key_e cr key) v (length bs / block_size) bs)
              >>= write)
            iv_of (ap (drop block_size) body_of ∙ blocks_of)
        ∙ ap (λ (p : Bytes). remove_padding p >>= write) decrypted
        ∙ ap (λ (p : Result Bytes). p >>= write) (remove_padding-add_padding m)

  pub encrypts :
      (key m : Bytes) (r : Reader)
      → leb block_size (length r) ≡ true
      → new_encrypt_closure cr (ok m) ok key r
        ≡ ok (text_of key (take block_size r) m, drop block_size r)
  encrypts key m r e = new_encrypt_closure_lem ok key m r ∙ rw e

  starves :
      (key m : Bytes) (r : Reader)
      → leb block_size (length r) ≡ false
      → new_encrypt_closure cr (ok m) ok key r ≡ err read_error
  starves key m r e = new_encrypt_closure_lem ok key m r ∙ rw e

  -- What was written is read back.
  pub decrypts :
      {V : Type 0} (write : Bytes → Result V) (key m text : Bytes) (r rest : Reader)
      → new_encrypt_closure cr (ok m) ok key r ≡ ok (text, rest)
      → (new_decrypt_closure cr (ok text) write key ≡ write m)
        × (length text ≡ block_size + block_size * (length m / block_size + 1) + hash_size)
  decrypts write key m text r rest e = elim (Bool-cases (leb block_size (length r))) [
    | inl enough ↦
        let iv = take block_size r in
        let iv_block : length iv ≡ block_size =
          omega (arith, length-take block_size r, (leb_iff block_size (length r)).0 enough) in
        let same : text_of key iv m ≡ text =
          ap (λ (x : Bytes × Reader). x.0) (ok-injective (sym (encrypts key m r enough) ∙ e)) in
        (
          ap (λ (t : Bytes). new_decrypt_closure cr (ok t) write key) (sym same)
              ∙ new_decrypt_closure-text_of key iv m iv_block write,
          ap length (sym same)
              ∙ omega (arith, length-text key iv m iv_block, length-add_padding_eq m),
        )
    | inr short ↦ absurd (failed (starves key m r short) e)
  ]
    where
      failed :
          new_encrypt_closure cr (ok m) ok key r ≡ err read_error
          → ¬ (new_encrypt_closure cr (ok m) ok key r ≡ ok (text, rest))
      failed p q = cc

  -- With 16 random bytes left, an encryption closure takes these and writes a text for the message m,
  -- of 16 bytes, the next multiple of 16 above the length of m, and 32 bytes more; the decryption
  -- closure on this text, with the same key, writes m. With fewer, the encryption is the read error.
  pub round_trip :
      {V : Type 0} (write : Bytes → Result V) (key m : Bytes) (r : Reader)
      → ((block_size ≤ length r)
          × (text : Bytes) × (new_encrypt_closure cr (ok m) ok key r ≡ ok (text, drop block_size r))
          × (length text ≡ block_size + block_size * (length m / block_size + 1) + hash_size)
          × (new_decrypt_closure cr (ok text) write key ≡ write m))
        ⊎ ((length r < block_size) × (new_encrypt_closure cr (ok m) ok key r ≡ err read_error))
  round_trip write key m r = elim (Bool-cases (leb block_size (length r))) [
    | inl enough ↦
        let text = text_of key (take block_size r) m in
        let encrypted = encrypts key m r enough in
        let (read_back, len) = decrypts write key m text r (drop block_size r) encrypted in
        inl ((leb_iff block_size (length r)).0 enough, text, encrypted, len, read_back)
    | inr short ↦ inr ((leb-false_iff block_size (length r)).0 short, starves key m r short)
  ]

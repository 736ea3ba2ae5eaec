-- ===== src/Pre/Cipher.antt =====
-- NewEncryptClosure and NewDecryptClosure of pre/ciphering.go. `read_all` is what ReadAll on the
-- input gives, and `write` what the output does with a text.
pub mod RoundTrip
pub mod Authentic
use proxyot.Prelude.{
  ℕ, ◌+◌, ◌-◌, ◌*◌, ◌/◌, ◌%◌, ◌≤◌, ◌<◌, ◌==◌, leb, Bool, true, false, ◌&&◌, ◌||◌, not, List, [],
  ◌∷◌, ◌++◌, length, take, drop, replicate, ◌≡◌,
}
use proxyot.Prelude.Result.{
  Result, ok, err, input_too_short, invalid_padding, invalid_mac, key_size, require, ◌>>=◌, ◌>>◌,
}
use proxyot.Prelude.Equal.{bytes_equal, copy}
use proxyot.Rand.{Reader, read_full}
use proxyot.Crypto.{Bytes, Crypto, block_size, hash_size}
use proxyot.Pre.Padding.{add_padding, remove_padding}
use proxyot.Pre.Cbc.{encrypt_blocks, decrypt_blocks}

module _ (cr : Crypto) where
  -- derivedKey[:32] and derivedKey[32:]
  unfoldable pub key_e : Bytes → Bytes
  key_e key = take 32 (cr.sha512 key)

  unfoldable pub key_m : Bytes → Bytes
  key_m key = drop 32 (cr.sha512 key)

  -- aes.NewCipher(key): an error for a key of any other length than 16, 24 or 32
  abbrev pub new_cipher : Bytes → Result (Unit {0})
  new_cipher key = require (length key == 16 || length key == 24 || length key == 32) key_size

  -- The text before its checksum: the initialisation vector and the encrypted blocks.
  abbrev pub sealed_text : Bytes → Bytes → Bytes → Bytes
  sealed_text key iv padded =
      iv ++ encrypt_blocks cr (key_e key) iv (length padded / block_size) padded

  module _ {W : Type 0} (read_all : Result Bytes) (write : Bytes → Result W) where
    unfoldable pub new_encrypt_closure : Bytes → Reader → Result (W × Reader)
    unfolding read_full
    new_encrypt_closure key r = do
      plaintext ← read_all
      let padded = add_padding plaintext
      (iv, rest) ← read_full block_size r
      new_cipher (key_e key)
      let body = sealed_text key iv padded
      let text = body ++ copy (replicate hash_size 0) (cr.hmac (key_m key) body)
      w ← write text
      ok (w, rest)

    unfoldable pub new_decrypt_closure : Bytes → Result W
    new_decrypt_closure key = do
      text ← read_all
      require (leb (block_size + block_size + hash_size) (length text)) input_too_short
      require ((length text - block_size - hash_size) % block_size == 0) invalid_padding
      let message_mac = drop (length text - hash_size) text
      let body = take (length text - hash_size) text
      require (bytes_equal message_mac (cr.hmac (key_m key) body)) invalid_mac
      let iv = take block_size text
      new_cipher (key_e key)
      let blocks = drop block_size body
      plaintext ←
          remove_padding (decrypt_blocks cr (key_e key) iv (length blocks / block_size) blocks)
      write plaintext

-- ===== src/Crypto.antt =====
-- crypto/sha256, crypto/sha512, crypto/hmac and crypto/aes of Go's standard library, taken by what
-- their documentation promises: the sizes of the digests, and a block cipher with its inverse.
use Prim.Native.Nat.{ℕ}
use proxyot.Prelude.{◌≡◌, List, length}

abbrev pub Bytes : Type 0
Bytes = List ℕ

-- sha256.Size and aes.BlockSize
abbrev pub hash_size : ℕ
hash_size = 32

abbrev pub block_size : ℕ
block_size = 16

pub record Crypto : Type 0 where
  pub sha256 : Bytes → Bytes
  pub sha512 : Bytes → Bytes
  -- The key, and the message.
  pub hmac : Bytes → Bytes → Bytes
  -- One block under a key, as the Encrypt and the Decrypt of a cipher.Block do it.
  pub encrypt_block : Bytes → Bytes → Bytes
  pub decrypt_block : Bytes → Bytes → Bytes

pub record IsCrypto (c : Crypto) : Type 0 where
  pub length-sha256 : (m : Bytes) → length (c.sha256 m) ≡ hash_size
  pub length-sha512 : (m : Bytes) → length (c.sha512 m) ≡ 64
  pub length-hmac : (k m : Bytes) → length (c.hmac k m) ≡ hash_size
  pub length-encrypt_block :
      (k b : Bytes) → length b ≡ block_size → length (c.encrypt_block k b) ≡ block_size
  pub length-decrypt_block :
      (k b : Bytes) → length b ≡ block_size → length (c.decrypt_block k b) ≡ block_size
  -- A block cipher: under a key of 32 bytes, a block of 16 comes back.
  pub decrypt-encrypt :
      (k b : Bytes)
      → length k ≡ 32
      → length b ≡ block_size
      → c.decrypt_block k (c.encrypt_block k b) ≡ b

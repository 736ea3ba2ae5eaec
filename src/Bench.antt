-- ===== src/Bench.antt =====
-- bench/proxyot.go: messages shared end to end, between Alice, Bob and a proxy. The rounds are those
-- of DeriveFieldElementFromPoint.
pub mod Draws
pub mod Setup
pub mod Operations
pub mod Loops
pub mod Sharing
pub mod Updates
pub mod Hashes
pub mod Sweeps
pub mod Results
pub mod Network
pub mod Figures
use proxyot.Prelude.{ℕ, suc, Bool, Option, some, none, List, [], ◌∷◌, map, get_elem?, if◌then◌else◌}
use proxyot.Prelude.Result.{Result, ok, panic, index_out_of_range, bad_assertion, ◌>>=◌}
use proxyot.BigInt.{ℤ, pos}
use proxyot.Rand.{Reader}
use proxyot.Bn256.{Bn256}
use proxyot.Crypto.{Bytes, Crypto}
use proxyot.Curve.{Point, derive_field_element_from_point}
use proxyot.Ot.{seal_choice, calculate_key_points, reveal_key_point}
use proxyot.Pre.{encrypt, generate_re_key, re_encrypt, decrypt_by_receiver}
use proxyot.Pre.Cipher.{new_encrypt_closure, new_decrypt_closure}

-- A loop that fills a slice from another one: it ends with the first call that does.
unfoldable pub fill {ℓ κ} : {A : Type ℓ} {B : Type κ} → (A → Result B) → List A → Result (List B)
fill f [] = ok []
fill f (x ∷ xs) = do y ← f x; ys ← fill f xs; ok (y ∷ ys)

module _ ⦃bn : Bn256⦄ where
  -- `for i := range reKeys { APrimes[i] = pre.ReEncrypt(As[i], reKeys[i]) }`, where APrimes is as
  -- long as As: what is behind the re-keys stays nil.
  unfoldable pub re_encrypt_loop : List Point → List Point → Result (List (Option Point))
  re_encrypt_loop points [] = ok (map (λ _. none) points)
  re_encrypt_loop [] (k ∷ ks) = panic index_out_of_range
  re_encrypt_loop (p ∷ points) (k ∷ ks) = do
    q ← re_encrypt p k
    rest ← re_encrypt_loop points ks
    ok (some q ∷ rest)

  -- APrimes[target-1]. A nil interface fails the assertion of the call that it is given to.
  abbrev pub shared_at : List (Option Point) → ℤ → Result Point
  shared_at a_primes (pos (suc i)) = elim (get_elem? a_primes i) [
    | none ↦ panic index_out_of_range
    | some none ↦ panic bad_assertion
    | some (some p) ↦ ok p
  ]
  shared_at a_primes _ = panic index_out_of_range

  module _ (cr : Crypto) where
    -- encryptMessage(pkA, message): the point, and what the closure wrote to the buffer
    unfoldable pub encrypt_message : Point → Bytes → Reader → Result ((Point × Bytes) × Reader)
    encrypt_message pk_a message r = encrypt pk_a (new_encrypt_closure cr (ok message) ok) r

    -- encryptMessages(pkA, messages)
    unfoldable pub encrypt_messages :
        Point → List Bytes → Reader → Result ((List Point × List Bytes) × Reader)
    unfolding encrypt_message
    encrypt_messages pk_a [] r = ok (([], []), r)
    encrypt_messages pk_a (m ∷ ms) r = do
      ((a, ciphertext), r1) ← encrypt_message pk_a m r
      ((points, ciphertexts), r2) ← encrypt_messages pk_a ms r1
      ok ((a ∷ points, ciphertext ∷ ciphertexts), r2)

    module _ (rounds : ℕ) where
      -- deriveKeysFromPoints(points)
      unfoldable pub derive_keys_from_points : List Point → Result (List ℤ)
      unfolding fill
      derive_keys_from_points = fill (derive_field_element_from_point cr rounds)

      -- decryptMessage(skB, APrime, LPrime, cipher)
      unfoldable pub decrypt_message : ℤ → Point → Point → Bytes → Result Bytes
      decrypt_message sk_b a_prime l_prime cipher = do
        kp ← reveal_key_point l_prime sk_b
        b ← derive_field_element_from_point cr rounds kp
        decrypt_by_receiver a_prime b (new_decrypt_closure cr (ok cipher) ok)

      -- shareMessages up to the decryption: APrimes and LPrime
      unfoldable pub share_points :
          ℤ
          → Point
          → Point
          → List Point
          → ℤ
          → ℤ
          → Reader
          → Result ((List (Option Point) × Point) × Reader)
      unfolding derive_keys_from_points re_encrypt_loop fill
      share_points sk_a pk_a pk_b points count target r = do
        ((y, l), r1) ← seal_choice target pk_a pk_b r
        ((kps, l_prime), r2) ← calculate_key_points y l pk_a count r1
        bob_keys ← derive_keys_from_points kps
        re_keys ← fill (generate_re_key sk_a) bob_keys
        a_primes ← re_encrypt_loop points re_keys
        ok ((a_primes, l_prime), r2)

      -- shareMessages(skA, skB, pkA, pkB, As, ciphertext, count, target, execDecrypt), whose plaintext
      -- ioutil.Discard takes
      unfoldable pub share_messages :
          ℤ
          → ℤ
          → Point
          → Point
          → List Point
          → Bytes
          → ℤ
          → ℤ
          → Bool
          → Reader
          → Result (Unit {0} × Reader)
      unfolding share_points
      share_messages sk_a sk_b pk_a pk_b points ciphertext count target exec_decrypt r = do
        ((a_primes, l_prime), r') ← share_points sk_a pk_a pk_b points count target r
        let decrypted = do
          kp ← reveal_key_point l_prime sk_b
          bob_key ← derive_field_element_from_point cr rounds kp
          a_prime ← shared_at a_primes target
          done ←
              decrypt_by_receiver a_prime bob_key
                (new_decrypt_closure cr (ok ciphertext) (λ _. ok tt))
          ok (done, r')
        if exec_decrypt then decrypted else ok (tt, r')

-- ===== src/Tests/Sharing.antt =====
-- Two messages shared at concrete values: Alice's key is 3, Bob's is 4, and he chooses the second.
use proxyot.Prelude.{
  ◌%◌, ◌<◌, ◌≡◌, ◌≢◌, refl, arith, true, Option, some, List, [], ◌∷◌, get_elem?, replicate,
}
use proxyot.Prelude.Result.{ok}
use proxyot.BigInt.{pos, emod, mod_int, set_bytes}
use proxyot.Rand.{Reader, read_full, bit_len, bit_len_loop, int_loop, rand_int}
use proxyot.Crypto.{Bytes}
use proxyot.Curve.{
  Point, random_field_element, field_element_loop, marshal, derive_field_element_from_point,
  derive_loop,
}
use proxyot.Curve.Calculus.{mult1, mult_t}
use proxyot.Ot.Keys.{key_row, seal_choice_mult, calculate_key_points_mult}
use proxyot.Pre.Delegation.{encrypt_mult}
use proxyot.Pre.Cipher.{new_encrypt_closure}
use proxyot.Pre.Cipher.RoundTrip.{encrypts}
use proxyot.Bench.{encrypt_message, decrypt_message, share_points, share_messages}
use proxyot.Bench.Sharing.{share_exact}
use proxyot.Tests.Toy.{toy, toy-IsPairing, toy_crypto, toy_crypto-IsCrypto}

abbrev message : Bytes
message = 7 ∷ 8 ∷ 9 ∷ []

abbrev iv : Reader
iv = replicate 16 2

abbrev drawn : Reader
drawn = 5 ∷ 7 ∷ 4 ∷ []

alice_nonzero : 3 % 7 ≢ 0
alice_nonzero e = omega arith

drawn_five : random_field_element ⦃bn = toy⦄ drawn ≡ ok (pos 5, 7 ∷ 4 ∷ [])
unfolding random_field_element field_element_loop rand_int int_loop bit_len bit_len_loop read_full
    set_bytes
drawn_five = refl

drawn_four : random_field_element ⦃bn = toy⦄ (7 ∷ 4 ∷ []) ≡ ok (pos 4, [])
unfolding random_field_element field_element_loop rand_int int_loop bit_len bit_len_loop read_full
    set_bytes
drawn_four = refl

drawn_for_message : random_field_element ⦃bn = toy⦄ (5 ∷ iv) ≡ ok (pos 5, iv)
unfolding random_field_element field_element_loop rand_int int_loop bit_len bit_len_loop read_full
    set_bytes
drawn_for_message = refl

encrypted :
    (text : Bytes) × (new_encrypt_closure toy_crypto
        (ok message)
        ok
        (marshal ⦃bn = toy⦄ (mult_t ⦃bn = toy⦄ 5))
        iv
      ≡ ok (text, []))
encrypted = (
  _,
  encrypts toy_crypto toy_crypto-IsCrypto (marshal ⦃bn = toy⦄ (mult_t ⦃bn = toy⦄ 5)) message iv
      refl,
)

message_encrypted :
    encrypt_message ⦃bn = toy⦄ toy_crypto (mult1 ⦃bn = toy⦄ 3) message (5 ∷ iv)
    ≡ ok ((mult1 ⦃bn = toy⦄ 15, encrypted.0), [])
unfolding encrypt_message
message_encrypted =
    encrypt_mult ⦃bn = toy⦄ toy-IsPairing 3 5 (new_encrypt_closure toy_crypto (ok message) ok)
      (5 ∷ iv) iv [] encrypted.0 drawn_for_message encrypted.1

abbrev points : List (Point ⦃bn = toy⦄)
points = mult1 ⦃bn = toy⦄ 2 ∷ mult1 ⦃bn = toy⦄ 15 ∷ []

abbrev kps : List (Point ⦃bn = toy⦄)
kps = key_row ⦃bn = toy⦄ 4 26 3 1 2

first_key :
    derive_field_element_from_point ⦃bn = toy⦄ toy_crypto 1 (mult1 ⦃bn = toy⦄ 176) ≡ ok (pos 1)
unfolding derive_field_element_from_point derive_loop marshal set_bytes mod_int emod
first_key = refl

second_key :
    derive_field_element_from_point ⦃bn = toy⦄ toy_crypto 1 (mult1 ⦃bn = toy⦄ 248) ≡ ok (pos 3)
unfolding derive_field_element_from_point derive_loop marshal set_bytes mod_int emod
second_key = refl

one_lt_two : 1 < 2
one_lt_two = omega arith

share_exact_example :
    (a_primes : List (Option (Point ⦃bn = toy⦄))) × (q : Point ⦃bn = toy⦄) × (share_points
        ⦃bn = toy⦄ toy_crypto 1
        (pos 3)
        (mult1 ⦃bn = toy⦄ 3)
        (mult1 ⦃bn = toy⦄ 4)
        points
        (pos 2)
        (pos 2)
        drawn
      ≡ ok ((a_primes, mult1 ⦃bn = toy⦄ 20), []))
    × (get_elem? a_primes 1 ≡ some (some q))
    × (decrypt_message ⦃bn = toy⦄ toy_crypto 1 (pos 4) q (mult1 ⦃bn = toy⦄ 20) encrypted.0
        ≡ ok message)
    × (share_messages ⦃bn = toy⦄ toy_crypto 1
          (pos 3)
          (pos 4)
          (mult1 ⦃bn = toy⦄ 3)
          (mult1 ⦃bn = toy⦄ 4)
          points
          encrypted.0
          (pos 2)
          (pos 2)
          true
          drawn
        ≡ ok (tt, []))
share_exact_example =
    share_exact ⦃bn = toy⦄ toy-IsPairing toy_crypto toy_crypto-IsCrypto 1 3 4 1 2 message
      encrypted.0 points kps (mult1 ⦃bn = toy⦄ 15) (mult1 ⦃bn = toy⦄ 26) (mult1 ⦃bn = toy⦄ 5)
      (mult1 ⦃bn = toy⦄ 20) (5 ∷ iv) [] drawn (7 ∷ 4 ∷ []) [] alice_nonzero one_lt_two (omega arith)
      ((2, refl), ((15, refl), tt)) message_encrypted refl
      (seal_choice_mult ⦃bn = toy⦄ toy-IsPairing 2 3 4 5 drawn (7 ∷ 4 ∷ []) drawn_five)
      (calculate_key_points_mult ⦃bn = toy⦄ toy-IsPairing 4 26 5 3 2 (7 ∷ 4 ∷ []) [] drawn_four)
      ((pos 1, first_key), ((pos 3, second_key), tt))

-- ===== src/Tests/Protocols.antt =====
-- The theorems at concrete values: bn256, the digests and the cipher are the stand-ins of Tests/Toy.
use proxyot.Prelude.{
  ℕ, ◌+◌, ◌-◌, ◌%◌, ◌≤◌, ◌<◌, ◌≡◌, ◌≢◌, ◌⊎◌, ◌↔◌, refl, arith, true, none, some, List, [], ◌∷◌,
  length, get_elem?, ◌++◌, replicate,
}
use proxyot.Prelude.Result.{ok, err, input_too_short, invalid_padding, invalid_mac, read_error}
use proxyot.BigInt.{pos, set_bytes, emod}
use proxyot.Rand.{Reader, read_full, bit_len, bit_len_loop, int_loop, rand_int}
use proxyot.Crypto.{Bytes}
use proxyot.Curve.{
  Point, random_field_element, field_element_loop, marshal, derive_field_element_from_point,
}
use proxyot.Curve.Field.{
  IsFieldElement, random_field_element_outcomes, rehash, residue, derive_first,
}
use proxyot.Curve.Calculus.{mult1, mult2, mult_t}
use proxyot.Ot.{reveal_key_point}
use proxyot.Ot.Keys.{key_row, seal_choice_mult, calculate_key_points_mult}
use proxyot.Ot.Correct.{transfer_exact}
use proxyot.Pre.{EncryptClosure, generate_re_key, re_encrypt, decrypt_by_receiver, decrypt_by_owner}
use proxyot.Pre.Delegation.{encrypt_mult, delegation}
use proxyot.Pre.Cipher.{key_m, new_encrypt_closure, new_decrypt_closure}
use proxyot.Pre.Cipher.RoundTrip.{round_trip}
use proxyot.Pre.Padding.{remove_padding}
use proxyot.Pre.Cipher.Authentic.{checksum, body, decrypted, decrypt_outcomes}
use proxyot.Chash.{ChameleonHash, compute_hash, verify, compute_collision}
use proxyot.Chash.Collision.{collision}
use proxyot.Merkle.{Hash, Tree, compute_pair, pairs_loop, compute_layer, layers_loop, new_tree}
use proxyot.Merkle.Layer.{Reduces, new_tree-Reduces}
use proxyot.Merkle.Binding.{Collision, root_binding}
use proxyot.Tests.Toy.{toy, toy-IsPairing, toy_crypto, toy_crypto-IsCrypto}

three_nonzero : 3 % 7 ≢ 0
three_nonzero e = omega arith

four_nonzero : 4 % 7 ≢ 0
four_nonzero e = omega arith

drawn_five : random_field_element ⦃bn = toy⦄ (5 ∷ 3 ∷ []) ≡ ok (pos 5, 3 ∷ [])
unfolding random_field_element field_element_loop rand_int int_loop bit_len bit_len_loop read_full
    set_bytes
drawn_five = refl

drawn_four : random_field_element ⦃bn = toy⦄ (7 ∷ 4 ∷ []) ≡ ok (pos 4, [])
unfolding random_field_element field_element_loop rand_int int_loop bit_len bit_len_loop read_full
    set_bytes
drawn_four = refl

one_lt_five : 1 < 5
one_lt_five = omega arith

transfer_exact_example :
    (kp : Point ⦃bn = toy⦄) × (q : Point ⦃bn = toy⦄) × (reveal_key_point ⦃bn = toy⦄
        (mult1 ⦃bn = toy⦄ 20)
        (pos 4)
      ≡ ok kp)
    × (length (key_row ⦃bn = toy⦄ 4 26 3 1 5) ≡ 5)
    × (get_elem? (key_row ⦃bn = toy⦄ 4 26 3 1 5) 1 ≡ some q)
    × ((q ≡ kp) ↔ (2 % 7 ≡ 2 % 7))
transfer_exact_example =
    transfer_exact ⦃bn = toy⦄ toy-IsPairing 2 3 4 5 1 (5 ∷ 3 ∷ []) (3 ∷ []) (7 ∷ 4 ∷ []) []
      (mult1 ⦃bn = toy⦄ 26) (mult1 ⦃bn = toy⦄ 5) (mult1 ⦃bn = toy⦄ 20)
      (key_row ⦃bn = toy⦄ 4 26 3 1 5) three_nonzero one_lt_five
      (seal_choice_mult ⦃bn = toy⦄ toy-IsPairing 2 3 4 5 (5 ∷ 3 ∷ []) (3 ∷ []) drawn_five)
      (calculate_key_points_mult ⦃bn = toy⦄ toy-IsPairing 4 26 5 3 5 (7 ∷ 4 ∷ []) [] drawn_four)

abbrev write_key : EncryptClosure Bytes
write_key key rest = ok (key, rest)

delegation_example :
    (key : Bytes) × (rest : Reader) × (rk : Point ⦃bn = toy⦄) × (p' : Point ⦃bn = toy⦄) × (write_key
        key rest
      ≡ ok (marshal ⦃bn = toy⦄ (mult_t ⦃bn = toy⦄ 5), 3 ∷ []))
    × (decrypt_by_owner ⦃bn = toy⦄ (mult1 ⦃bn = toy⦄ 15) (pos 3) ok ≡ ok key)
    × (generate_re_key ⦃bn = toy⦄ (pos 3) (pos 4) ≡ ok rk)
    × (re_encrypt ⦃bn = toy⦄ (mult1 ⦃bn = toy⦄ 15) rk ≡ ok p')
    × (decrypt_by_receiver ⦃bn = toy⦄ p' (pos 4) ok ≡ ok key)
delegation_example =
    delegation ⦃bn = toy⦄ toy-IsPairing 3 4 write_key ok (5 ∷ 3 ∷ []) (3 ∷ []) (mult1 ⦃bn = toy⦄ 15)
      (marshal ⦃bn = toy⦄ (mult_t ⦃bn = toy⦄ 5)) three_nonzero four_nonzero
      (encrypt_mult ⦃bn = toy⦄ toy-IsPairing 3 5 write_key (5 ∷ 3 ∷ []) (3 ∷ []) (3 ∷ [])
        (marshal ⦃bn = toy⦄ (mult_t ⦃bn = toy⦄ 5)) drawn_five refl)

round_trip_example :
    ((16 ≤ 20)
      × (text : Bytes) × (new_encrypt_closure toy_crypto
            (ok (7 ∷ 8 ∷ 9 ∷ []))
            ok
            (1 ∷ [])
            (replicate 20 2)
          ≡ ok (text, replicate 4 2))
      × (length text ≡ 64)
      × (new_decrypt_closure toy_crypto (ok text) ok (1 ∷ []) ≡ ok (7 ∷ 8 ∷ 9 ∷ [])))
    ⊎ ((20 < 16)
        × (new_encrypt_closure toy_crypto (ok (7 ∷ 8 ∷ 9 ∷ [])) ok (1 ∷ []) (replicate 20 2)
            ≡ err read_error))
round_trip_example =
    round_trip toy_crypto toy_crypto-IsCrypto ok (1 ∷ []) (7 ∷ 8 ∷ 9 ∷ []) (replicate 20 2)

abbrev zeros : Bytes
zeros = replicate 64 0

decrypt_outcomes_example :
    ((64 < 64) × (new_decrypt_closure toy_crypto (ok zeros) ok [] ≡ err input_too_short))
    ⊎ ((64 ≤ 64)
        × ((64 - 48) % 16 ≢ 0)
        × (new_decrypt_closure toy_crypto (ok zeros) ok [] ≡ err invalid_padding))
    ⊎ ((64 ≤ 64)
        × ((64 - 48) % 16 ≡ 0)
        × (checksum zeros ≢ toy_crypto.hmac (key_m toy_crypto []) (body zeros))
        × (new_decrypt_closure toy_crypto (ok zeros) ok [] ≡ err invalid_mac))
    ⊎ ((64 ≤ 64)
        × ((64 - 48) % 16 ≡ 0)
        × (checksum zeros ≡ toy_crypto.hmac (key_m toy_crypto []) (body zeros))
        × (((plain : Bytes) × (new_decrypt_closure toy_crypto (ok zeros) ok [] ≡ ok plain)
              × (remove_padding (decrypted toy_crypto [] zeros) ≡ ok plain)
              × (length plain + 48 ≤ 64))
            ⊎ ((new_decrypt_closure toy_crypto (ok zeros) ok [] ≡ err invalid_padding)
                × (remove_padding (decrypted toy_crypto [] zeros) ≡ err invalid_padding))))
decrypt_outcomes_example = decrypt_outcomes toy_crypto toy_crypto-IsCrypto [] zeros

collision_example :
    (ch : ChameleonHash) × (n : ℕ) × (compute_collision ⦃bn = toy⦄ toy_crypto
        (mult1 ⦃bn = toy⦄ 3)
        (pos 3)
        (pos 5)
        (pos 2)
        (pos 6)
        (pos 7)
      ≡ ok (ch, pos n, mult2 ⦃bn = toy⦄ n))
    × (compute_hash ⦃bn = toy⦄ toy_crypto (mult1 ⦃bn = toy⦄ 3) (mult2 ⦃bn = toy⦄ 5) (pos 2) ≡ ok ch)
    × (verify ⦃bn = toy⦄ toy_crypto ch (mult1 ⦃bn = toy⦄ 3) (mult2 ⦃bn = toy⦄ n) (pos 6) ≡ ok true)
collision_example = collision ⦃bn = toy⦄ toy-IsPairing toy_crypto 3 5 2 6 three_nonzero

one_lt_seven : 1 < 7
one_lt_seven = omega arith

random_field_element_outcomes_example :
    ((n : ℕ) × (rest : Reader) × (random_field_element ⦃bn = toy⦄ (0 ∷ 7 ∷ 5 ∷ [])
        ≡ ok (pos n, rest))
      × (0 < n)
      × (n < 7)
      × (length rest < 3))
    ⊎ (random_field_element ⦃bn = toy⦄ (0 ∷ 7 ∷ 5 ∷ []) ≡ err read_error)
random_field_element_outcomes_example =
    random_field_element_outcomes ⦃bn = toy⦄ (0 ∷ 7 ∷ 5 ∷ []) one_lt_seven

abbrev five_hash : Bytes
five_hash = toy_crypto.sha256 (marshal ⦃bn = toy⦄ (mult1 ⦃bn = toy⦄ 5))

none_below : (j : ℕ) → j < 0 → residue ⦃bn = toy⦄ (rehash ⦃bn = toy⦄ toy_crypto j five_hash) ≡ 0
none_below j h = absurd (omega arith)

five_nonzero : residue ⦃bn = toy⦄ (rehash ⦃bn = toy⦄ toy_crypto 0 five_hash) ≢ 0
unfolding marshal set_bytes emod
five_nonzero e = omega (arith, e)

derive_first_example :
    (derive_field_element_from_point ⦃bn = toy⦄ toy_crypto 1 (mult1 ⦃bn = toy⦄ 5)
      ≡ ok (pos (residue ⦃bn = toy⦄ (rehash ⦃bn = toy⦄ toy_crypto 0 five_hash))))
    × IsFieldElement ⦃bn = toy⦄
        (pos (residue ⦃bn = toy⦄ (rehash ⦃bn = toy⦄ toy_crypto 0 five_hash)))
derive_first_example =
    derive_first ⦃bn = toy⦄ toy_crypto 0 1 (mult1 ⦃bn = toy⦄ 5) (omega arith) (omega arith)
      none_below five_nonzero

-- A hash that ends in the given byte.
abbrev hash : ℕ → Hash
hash n = replicate 31 0 ++ n ∷ []

new_tree-Reduces_example :
    ((hash 1 ∷ hash 2 ∷ hash 3 ∷ [] ≡ [])
      × (new_tree toy_crypto (hash 1 ∷ hash 2 ∷ hash 3 ∷ []) ≡ ok none))
    ⊎ ((top : Hash) × (new_tree toy_crypto (hash 1 ∷ hash 2 ∷ hash 3 ∷ [])
          ≡ ok (
              some
                (record { root = toy_crypto.sha256 top; leaves = hash 1 ∷ hash 2 ∷ hash 3 ∷ [] })))
        × Reduces toy_crypto top (hash 1 ∷ hash 2 ∷ hash 3 ∷ []))
new_tree-Reduces_example = new_tree-Reduces toy_crypto (hash 1 ∷ hash 2 ∷ hash 3 ∷ [])

abbrev tree : List Hash → Tree
tree leaves = record { root = hash 5; leaves = leaves }

grown : new_tree toy_crypto (hash 1 ∷ hash 4 ∷ []) ≡ ok (some (tree (hash 1 ∷ hash 4 ∷ [])))
unfolding new_tree layers_loop compute_layer pairs_loop compute_pair
grown = refl

grown_alike : new_tree toy_crypto (hash 2 ∷ hash 3 ∷ []) ≡ ok (some (tree (hash 2 ∷ hash 3 ∷ [])))
unfolding new_tree layers_loop compute_layer pairs_loop compute_pair
grown_alike = refl

-- The stand-in for the digest has collisions, and the trees of different leaves one root.
root_binding_example : (hash 1 ∷ hash 4 ∷ [] ≡ hash 2 ∷ hash 3 ∷ []) ⊎ Collision toy_crypto
root_binding_example =
    root_binding toy_crypto toy_crypto-IsCrypto (hash 1 ∷ hash 4 ∷ []) (hash 2 ∷ hash 3 ∷ [])
      (tree (hash 1 ∷ hash 4 ∷ [])) (tree (hash 2 ∷ hash 3 ∷ [])) refl (refl, (refl, tt))
      (refl, (refl, tt)) grown grown_alike refl

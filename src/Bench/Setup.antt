-- ===== src/Bench/Setup.antt =====
-- initShareMessages and benchShareMessage of bench/proxyot.go. The state is that of the two random
-- sources: the reader of crypto/rand and the source of math/rand.
pub mod Returns
pub mod Rounds
use proxyot.Prelude.{ℕ, zero, suc, ◌==◌, Bool, true, false, List, [], ◌∷◌, if◌then◌else◌}
use proxyot.Prelude.Result.{Result, ok, panic, bad_argument, deref, ◌>>=◌}
use proxyot.BigInt.{ℤ, pos, negsuc}
use proxyot.Rand.{Reader}
use proxyot.Bn256.{Bn256}
use proxyot.Crypto.{Bytes, Crypto}
use proxyot.Curve.{type_g1, Point, curve_of, new_point, scalar_mult}
use proxyot.MathRand.{MathRand, int63n}
use proxyot.Bench.{encrypt_message, share_messages}
use proxyot.Bench.Draws.{must_make_random_bytes, rand_field_element, rand_point_and_key}

-- `i == target-1`
abbrev pub is_chosen : ℕ → ℤ → Bool
is_chosen i (pos (suc t)) = i == t
is_chosen i (pos zero) = false
is_chosen i (negsuc t) = false

module _ ⦃bn : Bn256⦄ (cr : Crypto) (mr : MathRand) where
  abbrev pub Sources : Type 0
  Sources = Reader × mr.Source

  module _ (rounds : ℕ) where
    -- The message that is chosen: random bytes, encrypted
    unfoldable pub own_message : Point → ℤ → Sources → Result ((Point × Bytes) × Sources)
    unfolding encrypt_message must_make_random_bytes
    own_message pk_a size (r, s) = do
      (msg, s1) ← must_make_random_bytes mr size s
      (sealed, r1) ← encrypt_message cr pk_a msg r
      ok (sealed, (r1, s1))

    -- A point in the place of any other
    unfoldable pub other_message : Point → Sources → Result (Point × Sources)
    unfolding rand_field_element new_point curve_of
    other_message pk_a (r, s) = do
      (k, s1) ← rand_field_element mr rounds s
      e ← deref (new_point (curve_of pk_a))
      p ← scalar_mult e pk_a k
      ok (p, (r, s1))

    -- The body of the loop of initShareMessages: As[i], and the ciphertext afterwards
    unfoldable pub init_message :
        Point → ℤ → ℤ → ℕ → Bytes → Sources → Result ((Point × Bytes) × Sources)
    unfolding own_message other_message
    init_message pk_a size target i ciphertext st =
        if is_chosen i target
        then own_message pk_a size st
        else (other_message pk_a st >>= λ (p, st'). ok ((p, ciphertext), st'))

    -- The loop from i on, with `left` rounds to go
    unfoldable pub init_loop :
        Point → ℤ → ℤ → ℕ → ℕ → Bytes → Sources → Result ((List Point × Bytes) × Sources)
    unfolding init_message
    init_loop pk_a size target i zero ciphertext st = ok (([], ciphertext), st)
    init_loop pk_a size target i (suc left) ciphertext st = do
      ((p, ciphertext1), st1) ← init_message pk_a size target i ciphertext st
      ((rest, ciphertext2), st2) ← init_loop pk_a size target (suc i) left ciphertext1 st1
      ok ((p ∷ rest, ciphertext2), st2)

    -- initShareMessages(pkA, size, n, target)
    unfoldable pub init_share_messages :
        Point → ℤ → ℤ → ℤ → Sources → Result ((List Point × Bytes) × Sources)
    unfolding init_loop
    init_share_messages pk_a size (pos n) target st = init_loop pk_a size target 0 n [] st
    init_share_messages pk_a size (negsuc n) target st = panic bad_argument

    -- A round of benchShareMessage. b.Fatal(err) is the error.
    unfoldable pub share_message_round : ℕ → ℤ → ℤ → Sources → Result Sources
    unfolding rand_point_and_key int63n init_share_messages share_messages
    share_message_round derive_rounds size count (r, s) = do
      ((sk_a, pk_a), s1) ← rand_point_and_key mr rounds type_g1 s
      ((sk_b, pk_b), s2) ← rand_point_and_key mr rounds type_g1 s1
      (n, s3) ← int63n mr count s2
      let target = pos (suc n)
      ((points, ciphertext), (r1, s4)) ← init_share_messages pk_a size count target (r, s3)
      (done, r2) ←
          share_messages cr derive_rounds sk_a sk_b pk_a pk_b points ciphertext count target false
            r1
      ok (r2, s4)

-- ===== src/Tests/Draws.antt =====
-- math/rand at concrete values, and the theorems on the benchmarks of bench/proxyot.go.
use proxyot.Prelude.{
  ℕ, zero, suc, ◌+◌, ◌%◌, ◌<◌, ◌≡◌, ◌≢◌, refl, ◌∙◌, arith, some, [], ◌∷◌, ◌++◌, length-append,
  length-replicate, replicate, ltb, if◌then◌else◌,
}
use proxyot.Prelude.Result.{ok}
use proxyot.BigInt.{ℤ, pos, emod, mod_int, set_bytes}
use proxyot.Crypto.{Crypto, IsCrypto}
use proxyot.Curve.{marshal, derive_field_element_from_point, derive_loop}
use proxyot.Curve.Field.{IsFieldElement}
use proxyot.Curve.Calculus.{mult1}
use proxyot.MathRand.{MathRand, IsMathRand, big_endian}
use proxyot.Bench.Draws.{four_words, rand_field_element}
use proxyot.Bench.Draws.Range.{drawn_residue, source_after, rand_field_element_first}
use proxyot.Bench.Setup.Returns.{Supplies}
use proxyot.Bench.Sharing.{Derives}
use native.Mathlib.Nat.{mod-lt}
use proxyot.Tests.Toy.{sum, toy, toy-IsPairing, toy_crypto, toy_crypto-IsCrypto}

-- A source that counts its calls of Uint64: the first four give 0, all others 1.
abbrev counting : MathRand
counting = record {
  Source = ℕ;
  uint64 = λ s. (if ltb s 4 then 0 else 1, s + 1);
  below = λ n s. (0, s);
  read = λ n s. some (replicate n 7, s);
}

first_zero : drawn_residue ⦃bn = toy⦄ counting 0 ≡ 0
unfolding four_words big_endian set_bytes
first_zero = refl

second_one : drawn_residue ⦃bn = toy⦄ counting (source_after ⦃bn = toy⦄ counting 1 0) ≡ 1
unfolding four_words big_endian set_bytes
second_one = refl

rand_field_element_first_example :
    (rand_field_element ⦃bn = toy⦄ counting 3 0
      ≡ ok (
        pos (drawn_residue ⦃bn = toy⦄ counting (source_after ⦃bn = toy⦄ counting 1 0)),
        source_after ⦃bn = toy⦄ counting 2 0,
      ))
    × IsFieldElement ⦃bn = toy⦄
        (pos (drawn_residue ⦃bn = toy⦄ counting (source_after ⦃bn = toy⦄ counting 1 0)))
rand_field_element_first_example =
    rand_field_element_first ⦃bn = toy⦄ counting 1 3 0 (omega arith) (omega arith) zeros nonzero
  where
    zeros :
        (j : ℕ)
        → j < 1
        → drawn_residue ⦃bn = toy⦄ counting (source_after ⦃bn = toy⦄ counting j 0) ≡ 0
    zeros zero h = first_zero
    zeros (suc j) h = absurd (omega arith)

    nonzero : drawn_residue ⦃bn = toy⦄ counting (source_after ⦃bn = toy⦄ counting 1 0) ≢ 0
    nonzero e = omega (arith, second_one)

-- A source that gives 1 at every call, and a digest that is one more than the sum of the message.
abbrev pub steady : MathRand
steady = record {
  Source = Unit {0};
  uint64 = λ s. (1, s);
  below = λ n s. (0, s);
  read = λ n s. some (replicate n 7, s);
}

pub steady-IsMathRand : IsMathRand steady
steady-IsMathRand = record {
  read_returns = λ n s. (replicate n 7, s, refl, length-replicate n 7);
  below_lt = λ n s h. h;
}

abbrev pub counted : Crypto
counted = record toy_crypto { sha256 = λ m. replicate 31 0 ++ ((sum m + 1) % 256) ∷ [] }

pub counted-IsCrypto : IsCrypto counted
counted-IsCrypto = record {
  length-sha256 = λ m. length-append (replicate 31 0) (((sum m + 1) % 256) ∷ []) ∙ refl;
  length-sha512 = toy_crypto-IsCrypto.length-sha512;
  length-hmac = toy_crypto-IsCrypto.length-hmac;
  length-encrypt_block = toy_crypto-IsCrypto.length-encrypt_block;
  length-decrypt_block = toy_crypto-IsCrypto.length-decrypt_block;
  decrypt-encrypt = toy_crypto-IsCrypto.decrypt-encrypt;
}

steady_one : (s : Unit {0}) → rand_field_element ⦃bn = toy⦄ steady 1 s ≡ ok (pos 1, s)
unfolding rand_field_element four_words big_endian set_bytes mod_int emod
steady_one s = refl

pub steady-Supplies :
    Supplies ⦃bn = toy⦄ toy-IsPairing counted counted-IsCrypto steady steady-IsMathRand 1
steady-Supplies s = (pos 1, s, steady_one s)

derived_of :
    (n : ℕ) → n < 7 → (k : ℤ) × (derive_loop ⦃bn = toy⦄ counted 2 (counted.sha256 (n ∷ [])) ≡ ok k)
unfolding derive_loop set_bytes mod_int emod
derived_of zero h = (pos 1, refl)
derived_of (suc zero) h = (pos 2, refl)
derived_of (suc (suc zero)) h = (pos 3, refl)
derived_of (suc (suc (suc zero))) h = (pos 4, refl)
derived_of (suc (suc (suc (suc zero)))) h = (pos 5, refl)
derived_of (suc (suc (suc (suc (suc zero))))) h = (pos 6, refl)
derived_of (suc (suc (suc (suc (suc (suc zero)))))) h = (pos 1, refl)
derived_of (suc (suc (suc (suc (suc (suc (suc n))))))) h = absurd (omega arith)

pub counted-Derives :
    (m : ℕ) → Derives ⦃bn = toy⦄ toy-IsPairing counted counted-IsCrypto 2 (mult1 ⦃bn = toy⦄ m)
unfolding derive_field_element_from_point marshal emod
counted-Derives m = derived_of (m % 7 % 7) (mod-lt (m % 7) (omega arith))

-- ===== src/Tests/Benchmarks.antt =====
-- The theorems on the benchmarks of bench/proxyot.go, at concrete values.
use proxyot.Prelude.{
  ◌*◌, get_elem?, ◌^◌, some, map, ◌%◌, ◌≡◌, ◌≢◌, refl, arith, true, false, List, [], ◌∷◌, ◌++◌,
  length, replicate, ◌+◌,
}
use proxyot.Prelude.Result.{ok}
use proxyot.BigInt.{ℤ, pos, set_bytes}
use proxyot.Rand.{Reader, read_full, bit_len, bit_len_loop, int_loop, rand_int}
use proxyot.Crypto.{Bytes}
use proxyot.Curve.{Point, random_field_element, field_element_loop}
use proxyot.Curve.Calculus.{mult1}
use proxyot.Bench.{share_messages}
use proxyot.Bench.Setup.{init_share_messages, share_message_round}
use proxyot.Bench.Setup.Rounds.{ThreeDraws, prepared_share, share_message_round_returns}
use proxyot.Bench.Operations.{bench_encrypt, bench_decrypt, bench_aes_encrypt, bench_aes_decrypt}
use proxyot.Bench.Operations.Curves.{Ends}
use proxyot.Bench.Sweeps.Values.{concat_map}
use proxyot.Bench.Results.{
  unseal, decrypt, ExecResult, msg_size, share_result, share_message_results, run,
  execution_results,
}
use proxyot.Bench.Sweeps.Nested.{up_to, IsSweep}
use proxyot.Bench.Results.Grid.{share_message_results_grid}
use proxyot.Bench.Results.Runs.{execution_results_return}
use proxyot.Bench.Operations.Ciphers.{EncryptDraws, ciphers_return}
use proxyot.Tests.Toy.{toy, toy-IsPairing}
use proxyot.Tests.Draws.{
  steady, steady-IsMathRand, counted, counted-IsCrypto, steady-Supplies, counted-Derives,
}

-- A scalar, a vector, and two scalars.
abbrev iv : Reader
iv = replicate 16 2

abbrev reader : Reader
reader = 5 ∷ iv ++ 5 ∷ 7 ∷ 4 ∷ []

drawn_first : random_field_element ⦃bn = toy⦄ reader ≡ ok (pos 5, iv ++ 5 ∷ 7 ∷ 4 ∷ [])
unfolding random_field_element field_element_loop rand_int int_loop bit_len bit_len_loop read_full
    set_bytes
drawn_first = refl

drawn_second : random_field_element ⦃bn = toy⦄ (5 ∷ 7 ∷ 4 ∷ []) ≡ ok (pos 5, 7 ∷ 4 ∷ [])
unfolding random_field_element field_element_loop rand_int int_loop bit_len bit_len_loop read_full
    set_bytes
drawn_second = refl

drawn_third : random_field_element ⦃bn = toy⦄ (7 ∷ 4 ∷ []) ≡ ok (pos 4, [])
unfolding random_field_element field_element_loop rand_int int_loop bit_len bit_len_loop read_full
    set_bytes
drawn_third = refl

three_draws :
    ThreeDraws ⦃bn = toy⦄ toy-IsPairing counted counted-IsCrypto steady steady-IsMathRand 1 2 reader
      []
three_draws =
    (5, iv ++ 5 ∷ 7 ∷ 4 ∷ [], 5, 7 ∷ 4 ∷ [], 4, drawn_first, omega arith, drawn_second, drawn_third)

alice_nonzero : 3 % 7 ≢ 0
alice_nonzero e = omega arith

prepared_share_example :
    (points : List (Point ⦃bn = toy⦄)) × (c : Bytes) × (r1 : Reader) × (s' : Unit {0})
    × (init_share_messages ⦃bn = toy⦄ counted steady 1
          (mult1 ⦃bn = toy⦄ 3)
          (pos 9)
          (pos 4)
          (pos 2)
          (reader, tt)
        ≡ ok ((points, c), (r1, s')))
    × (length points ≡ 4)
    × (share_messages ⦃bn = toy⦄ counted 2
          (pos 3)
          (pos 4)
          (mult1 ⦃bn = toy⦄ 3)
          (mult1 ⦃bn = toy⦄ 4)
          points
          c
          (pos 4)
          (pos 2)
          true
          r1
        ≡ ok (tt, []))
    × (share_messages ⦃bn = toy⦄ counted 2
          (pos 3)
          (pos 4)
          (mult1 ⦃bn = toy⦄ 3)
          (mult1 ⦃bn = toy⦄ 4)
          points
          c
          (pos 4)
          (pos 2)
          false
          r1
        ≡ ok (tt, []))
prepared_share_example =
    prepared_share ⦃bn = toy⦄ toy-IsPairing counted counted-IsCrypto steady steady-IsMathRand 1 2 3
      4 1 4 9 reader [] tt alice_nonzero (omega arith) steady-Supplies counted-Derives three_draws

share_message_round_returns_example :
    (s' : Unit {0}) × (share_message_round ⦃bn = toy⦄ counted steady 1 2
        (pos 9)
        (pos 4)
        (reader, tt)
      ≡ ok ([], s'))
share_message_round_returns_example =
    share_message_round_returns ⦃bn = toy⦄ toy-IsPairing counted counted-IsCrypto steady
      steady-IsMathRand 1 2 9 4 reader [] tt (omega arith) steady-Supplies counted-Derives
      three_draws

-- Two rounds of encryption, each with its scalar and its vector.
abbrev twice : Reader
twice = 5 ∷ iv ++ 5 ∷ iv

drawn_once : random_field_element ⦃bn = toy⦄ (5 ∷ iv) ≡ ok (pos 5, iv)
unfolding random_field_element field_element_loop rand_int int_loop bit_len bit_len_loop read_full
    set_bytes
drawn_once = refl

drawn_of_twice : random_field_element ⦃bn = toy⦄ twice ≡ ok (pos 5, iv ++ 5 ∷ iv)
unfolding random_field_element field_element_loop rand_int int_loop bit_len bit_len_loop read_full
    set_bytes
drawn_of_twice = refl

two_rounds : EncryptDraws ⦃bn = toy⦄ 2 twice []
two_rounds = (5, iv ++ 5 ∷ iv, drawn_of_twice, omega arith, (5, iv, drawn_once, omega arith, refl))

ciphers_return_example :
    ((s' : Unit {0}) × (bench_encrypt ⦃bn = toy⦄ steady 1 counted (pos 9) 2 (twice, tt)
        ≡ ok ([], s')))
    × ((s' : Unit {0}) × (bench_decrypt ⦃bn = toy⦄ steady 1 counted (pos 9) 2 (twice, tt)
          ≡ ok ([], s')))
    × ((q : Reader) × (s' : Unit {0}) × (bench_aes_encrypt ⦃bn = toy⦄ steady 1 counted
            (pos 9)
            2
            (twice, tt)
          ≡ ok (q, s')))
    × ((q : Reader) × (s' : Unit {0}) × (bench_aes_decrypt ⦃bn = toy⦄ steady 1 counted
            (pos 9)
            2
            (twice, tt)
          ≡ ok (q, s')))
ciphers_return_example =
    ciphers_return ⦃bn = toy⦄ toy-IsPairing counted counted-IsCrypto steady steady-IsMathRand 1
      steady-Supplies 9 2 twice [] twice tt two_rounds (omega arith)

-- Scalars one after the other.
ten_sizes : IsSweep 10 1000 10 20 5 1001
ten_sizes = record {
  some_size = omega arith;
  grows = omega arith;
  some_step = omega arith;
  size_fits = omega arith;
  count_fits = omega arith;
  size_fuel = omega arith;
  count_fuel = omega arith;
}

share_message_results_grid_example :
    (results : List ExecResult) × (sizes counts : List ℤ) × (share_message_results 1001
        (pos 10)
        (pos 1000)
        (pos 10)
        (pos 5)
        (pos 20)
        (pos 5)
      ≡ ok (results, sizes, counts))
    × (get_elem? sizes 2 ≡ up_to 1000 (10 * 10 ^ 2))
    × (get_elem? counts 3 ≡ up_to 20 (5 + 5 * 3))
    × (results ≡ concat_map (λ size. map (share_result size) counts) sizes)
share_message_results_grid_example = share_message_results_grid 10 1000 10 5 20 5 1001 2 3 ten_sizes

-- The benchmark at the index 14 decrypts a message of a million bytes.
abbrev decryption : ExecResult
decryption = record {
  name = decrypt;
  call = unseal (pos 1000000);
  extra = msg_size (pos 1000000) ∷ [];
}

at_fourteen : get_elem? execution_results 14 ≡ some decryption
unfolding execution_results
at_fourteen = refl

execution_results_return_example :
    Ends (run ⦃bn = toy⦄ counted steady 1 2 (unseal (pos 1000000)) 2 (twice, tt))
execution_results_return_example =
    execution_results_return ⦃bn = toy⦄ toy-IsPairing counted counted-IsCrypto steady
      steady-IsMathRand 1 2 steady-Supplies counted-Derives 14 2 decryption twice tt at_fourteen
      ([], two_rounds)

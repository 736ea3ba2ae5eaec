-- ===== src/Bench/Results.antt =====
-- bench/bench.go: which benchmarks are run, for which sizes and counts, and what is computed from their
-- times. A `func(b *testing.B)` is the call that it makes; testing.Benchmark is a parameter, by the
-- milliseconds for an operation. What is printed is left out.
pub mod Grid
pub mod Runs
use proxyot.Prelude.{ℕ, zero, suc, List, [], ◌∷◌, ◌++◌, map}
use proxyot.Prelude.Result.{Result, ok, ◌>>=◌}
use proxyot.BigInt.{ℤ, pos, ◌*ℤ◌}
use proxyot.Rand.{Reader}
use proxyot.Bn256.{Bn256}
use proxyot.Crypto.{Crypto}
use proxyot.Curve.{Curve, type_g1, type_g2, type_gt}
use proxyot.MathRand.{MathRand}
use proxyot.Fileobj.{to_int64}
use proxyot.Bench.Setup.{share_message_round}
use proxyot.Bench.Operations.{
  repeat, bench_scalar_mult, bench_scalar_div, bench_point_add, bench_pair, bench_generate_key,
  bench_generate_re_key, bench_re_encrypt, bench_encrypt, bench_aes_encrypt, bench_decrypt,
}
use proxyot.Bench.Sweeps.{times, plus, for_loop, values}

-- The names of the results
pub data Name : Type 0 where
  point_mult_g1 point_mult_g2 point_mult_gt point_div_g1 point_div_g2 point_div_gt : Name
  point_add_g1 point_add_g2 point_add_gt point_pair : Name
  generate_key generate_re_key re_encrypt encrypt decrypt share_message : Name

-- The calls that are measured
pub data Call : Type 0 where
  scalar_mult scalar_div point_add : Curve → Call
  pair key re_key proxy : Call
  seal seal_closure unseal : ℤ → Call
  share : ℤ → ℤ → Call

-- The entries of `extra`
pub data Extra : Type 0 where
  msg_size msg_count : ℤ → Extra

-- type ExecResult, with the call in the place of its measure
pub record ExecResult : Type 0 where
  pub name : Name
  pub call : Call
  pub extra : List Extra

module _ ⦃bn : Bn256⦄ (cr : Crypto) (mr : MathRand) (rounds derive_rounds : ℕ) where
  -- benchShareMessage(b, size, count)
  unfoldable pub bench_share_message : ℤ → ℤ → ℕ → Reader × mr.Source → Result (Reader × mr.Source)
  bench_share_message size count n =
      repeat n (share_message_round cr mr rounds derive_rounds size count)

  -- A benchmark that draws from math/rand alone
  abbrev pub on_source :
      (mr.Source → Result mr.Source) → Reader × mr.Source → Result (Reader × mr.Source)
  on_source f (r, s) = f s >>= λ s'. ok (r, s')

  -- What a call does with b.N = n
  unfoldable pub run : Call → ℕ → Reader × mr.Source → Result (Reader × mr.Source)
  run (scalar_mult c) n = on_source (bench_scalar_mult mr rounds c n)
  run (scalar_div c) n = on_source (bench_scalar_div mr rounds c n)
  run (point_add c) n = on_source (bench_point_add mr rounds c n)
  run pair n = on_source (bench_pair mr rounds n)
  run key n = on_source (bench_generate_key mr rounds cr derive_rounds n)
  run re_key n = on_source (bench_generate_re_key mr rounds n)
  run proxy n = on_source (bench_re_encrypt mr rounds n)
  run (seal size) n = bench_encrypt mr rounds cr size n
  run (seal_closure size) n = bench_aes_encrypt mr rounds cr size n
  run (unseal size) n = bench_decrypt mr rounds cr size n
  run (share size count) n = bench_share_message size count n

-- One of the results without an extra
abbrev result : Name → Call → ExecResult
result name call = record { name = name; call = call; extra = [] }

-- ExecutionResults()
unfoldable pub execution_results : List ExecResult
execution_results =
    result point_mult_g1 (scalar_mult type_g1)
    ∷ result point_mult_g2 (scalar_mult type_g2)
    ∷ result point_mult_gt (scalar_mult type_gt)
    ∷ result point_div_g1 (scalar_div type_g1)
    ∷ result point_div_g2 (scalar_div type_g2)
    ∷ result point_div_gt (scalar_div type_gt)
    ∷ result point_add_g1 (point_add type_g1)
    ∷ result point_add_g2 (point_add type_g2)
    ∷ result point_add_gt (point_add type_gt)
    ∷ result point_pair pair
    ∷ result generate_key key
    ∷ result generate_re_key re_key
    ∷ result re_encrypt proxy
    ∷ record { name = encrypt; call = seal (pos 1000000); extra = msg_size (pos 1000000) ∷ [] }
    ∷ record { name = decrypt; call = unseal (pos 1000000); extra = msg_size (pos 1000000) ∷ [] }
    ∷ record {
      name = share_message;
      call = share (pos 1000000) (pos 10);
      extra = msg_size (pos 1000000) ∷ msg_count (pos 10) ∷ [];
    }
    ∷ []

-- The result for a size and a count
abbrev pub share_result : ℤ → ℤ → ExecResult
share_result size count = record {
  name = share_message;
  call = share size count;
  extra = msg_size size ∷ msg_count count ∷ [];
}

module _ (fuel : ℕ) where
  -- ShareMessageResults(sizeMin, sizeMax, sizeRatio, countMin, countMax, countStep)
  unfoldable pub share_message_results :
      ℤ → ℤ → ℤ → ℤ → ℤ → ℤ → Result (List ExecResult × List ℤ × List ℤ)
  share_message_results size_min size_max size_ratio count_min count_max count_step = do
    sizes ← values (times size_ratio) size_max fuel size_min
    counts ← values (plus count_step) count_max fuel count_min
    results ←
        for_loop (times size_ratio) size_max
          (λ size.
            for_loop (plus count_step) count_max
              (λ count results. ok (results ++ share_result size count ∷ [])) fuel count_min)
          fuel size_min []
    ok (results, sizes, counts)

-- float64, as the figures compute with it
pub record Floats : Type 1 where
  pub Float : Type 0
  pub of_int : ℤ → Float
  -- The constant n / 1000
  pub thousandths : ℕ → Float
  pub plus_float : Float → Float → Float
  pub times_float : Float → Float → Float

module _ (fl : Floats) (fuel : ℕ) where
  -- ComparisonAlice(size, count, roundMin, roundMax, roundStep): the size is not used.
  unfoldable pub comparison_alice :
      ℤ → ℤ → ℤ → ℤ → ℤ → Result (List fl.Float × List fl.Float × List ℤ)
  comparison_alice size count round_min round_max round_step =
      let kg_t = fl.thousandths 323 in
      let rkg_t = fl.thousandths 1022 in
      let enc_t = fl.thousandths 2440 in
      values (plus round_step) round_max fuel round_min >>= λ rounds.
      for_loop (plus round_step) round_max
        (λ round (ours, ots).
          let n = fl.of_int (to_int64 (count *ℤ round)) in
          let our_work_t =
            fl.plus_float (fl.times_float (fl.plus_float kg_t rkg_t) n)
              (fl.times_float enc_t (fl.of_int count)) in
          let ot_paper_t = fl.times_float (fl.plus_float kg_t enc_t) n in
          ok (ours ++ our_work_t ∷ [], ots ++ ot_paper_t ∷ []))
        fuel round_min ([], [])
      >>= λ (ours, ots). ok (ours, ots, rounds)

  module _ (ms_per_op : Call → fl.Float) where
    -- The times of the three schemes: ourWork, otPaper and yaoGang
    abbrev pub Times : Type 0
    Times = List fl.Float × List fl.Float × List fl.Float

    -- The times for a count, by that of the encryption of a message
    abbrev pub times_of : fl.Float → ℤ → fl.Float × fl.Float × fl.Float
    times_of enc_t count =
        let kg_t = ms_per_op key in
        let rkg_t = ms_per_op re_key in
        let re_t = ms_per_op proxy in
        let enc32_t = ms_per_op (seal_closure (pos 32)) in
        let n = fl.of_int count in
        (
          fl.times_float (fl.plus_float (fl.plus_float kg_t rkg_t) re_t) n,
          fl.times_float (fl.plus_float kg_t enc_t) n,
          fl.times_float
              (fl.plus_float (fl.plus_float (fl.times_float kg_t (fl.of_int (pos 2))) enc32_t)
                enc_t)
              n,
        )

    -- The loop over the sizes, each with its encTs[i]
    unfoldable pub comparison_loop : ℤ → ℤ → ℤ → List (ℤ × fl.Float) → Times → Result Times
    comparison_loop count_min count_max count_step [] acc = ok acc
    comparison_loop count_min count_max count_step ((size, enc_t) ∷ sizes) acc = do
      acc' ←
          for_loop (plus count_step) count_max
            (λ count (ours, ots, gangs).
              let (our, ot, gang) = times_of enc_t count in
              ok (ours ++ our ∷ [], ots ++ ot ∷ [], gangs ++ gang ∷ []))
            fuel count_min acc
      comparison_loop count_min count_max count_step sizes acc'

    -- Comparison(sizeMin, sizeMax, sizeRatio, countMin, countMax, countStep)
    unfoldable pub comparison : ℤ → ℤ → ℤ → ℤ → ℤ → ℤ → Result (Times × List ℤ × List ℤ)
    comparison size_min size_max size_ratio count_min count_max count_step = do
      sizes ← values (times size_ratio) size_max fuel size_min
      counts ← values (plus count_step) count_max fuel count_min
      let measured = map (λ size. (size, ms_per_op (seal_closure size))) sizes
      acc ← comparison_loop count_min count_max count_step measured ([], [], [])
      ok (acc, sizes, counts)

-- ===== src/Bench/Results/Runs.antt =====
-- ExecutionResults of bench/bench.go: none of its benchmarks fails.
use mathlib.Core.Path.{subst}
use proxyot.Prelude.{
  ℕ, zero, suc, ◌*◌, ◌≤◌, ◌<◌, ◌≡◌, refl, ap, ap₂, ◌∙◌, arith, some, List, [], ◌∷◌, length,
  get_elem?, All,
}
use proxyot.Prelude.Result.{Result}
use proxyot.BigInt.{ℤ, pos}
use proxyot.Rand.{Reader}
use proxyot.Bn256.{Bn256, IsPairing}
use proxyot.Crypto.{Crypto, IsCrypto, block_size}
use proxyot.Curve.Calculus.{mult1}
use proxyot.MathRand.{MathRand, IsMathRand}
use proxyot.Bench.Sharing.{Derives}
use proxyot.Bench.Setup.Returns.{Supplies}
use proxyot.Bench.Setup.Rounds.{ThreeDraws, share_message_round_returns}
use proxyot.Bench.Operations.{
  repeat, bench_scalar_base_mult, bench_scalar_mult, bench_scalar_div, bench_point_add, bench_pair,
  bench_generate_re_key, bench_re_encrypt, bench_generate_key, bench_encrypt, bench_decrypt,
  bench_aes_encrypt,
}
use proxyot.Bench.Operations.Curves.{Ends, operations_return}
use proxyot.Bench.Operations.Ciphers.{
  EncryptDraws, encrypt_rounds, decrypt_rounds, aes_encrypt_rounds,
}
use proxyot.Bench.Results.{
  Call, scalar_mult, scalar_div, point_add, pair, key, re_key, proxy, seal, seal_closure, unseal,
  share, ExecResult, bench_share_message, run, execution_results, on_source,
}

-- A call with a curve that there is, a size not below 0 and a count above 0.
abbrev IsCall : Call → Type 0
IsCall (scalar_mult c) = c < 3
IsCall (scalar_div c) = c < 3
IsCall (point_add c) = c < 3
IsCall (seal size) = (n : ℕ) × (size ≡ pos n)
IsCall (seal_closure size) = (n : ℕ) × (size ≡ pos n)
IsCall (unseal size) = (n : ℕ) × (size ≡ pos n)
IsCall (share size count) = (n k : ℕ) × (size ≡ pos n) × (count ≡ pos k) × (0 < k)
IsCall _ = Unit {0}

execution_results-IsCall : All (λ (res : ExecResult). IsCall res.call) execution_results
unfolding execution_results
execution_results-IsCall = (
  omega arith,
  (
    omega arith,
    (
      omega arith,
      (
        omega arith,
        (
          omega arith,
          (
            omega arith,
            (
              omega arith,
              (
                omega arith,
                (
                  omega arith,
                  (
                    tt,
                    (
                      tt,
                      (
                        tt,
                        (
                          tt,
                          (
                            (1000000, refl),
                            ((1000000, refl), ((1000000, 10, refl, refl, omega arith), tt)),
                          ),
                        ),
                      ),
                    ),
                  ),
                ),
              ),
            ),
          ),
        ),
      ),
    ),
  ),
)

All-get_elem? :
    (P : ExecResult → Type 0) (xs : List ExecResult) (i : ℕ) (x : ExecResult)
    → All P xs
    → get_elem? xs i ≡ some x
    → P x
All-get_elem? P [] i x h e = cc
All-get_elem? P (y ∷ ys) zero x (p, h) e = let same : y ≡ x = cc in subst P same p
All-get_elem? P (y ∷ ys) (suc i) x (p, h) e = All-get_elem? P ys i x h e

module _ ⦃bn : Bn256⦄ (laws : IsPairing bn) (cr : Crypto) (crypto : IsCrypto cr) (mr : MathRand)
    (rand_laws : IsMathRand mr) (rounds derive_rounds : ℕ) where
  -- Draws for n rounds of benchShareMessage
  abbrev ShareDraws : ℕ → Reader → Type 0
  ShareDraws zero r = Unit {0}
  ShareDraws (suc n) r =
      (r' : Reader) × ThreeDraws laws cr crypto mr rand_laws rounds derive_rounds r r'
      × ShareDraws n r'

  -- The reader of crypto/rand has what n rounds of a call draw.
  abbrev pub Feeds : Call → ℕ → Reader → Type 0
  Feeds (seal size) n r = (r' : Reader) × EncryptDraws n r r'
  Feeds (unseal size) n r = (r' : Reader) × EncryptDraws n r r'
  Feeds (seal_closure size) n r = n * block_size ≤ length r
  Feeds (share size count) n r = ShareDraws n r
  Feeds _ n r = Unit {0}

  module _ (supplies : Supplies laws cr crypto mr rand_laws rounds)
      (derives : (m : ℕ) → Derives laws cr crypto derive_rounds (mult1 m)) where
    share_rounds :
        (size count n : ℕ) (r : Reader) (s : mr.Source)
        → 0 < count
        → ShareDraws n r
        → Ends (bench_share_message cr mr rounds derive_rounds (pos size) (pos count) n (r, s))
    unfolding bench_share_message repeat
    share_rounds size count zero r s positive draws = ((r, s), refl)
    share_rounds size count (suc n) r s positive (r', three, draws) =
        let (s1, one) =
          share_message_round_returns laws cr crypto mr rand_laws rounds derive_rounds size count r
            r' s positive supplies derives three in
        let (st, rest) = share_rounds size count n r' s1 positive draws in (st, rw (one, rest))

    -- The benchmarks of operations on points and keys.
    operations :
        (c n : ℕ) (s : mr.Source)
        → c < 3
        → (Ends (bench_scalar_base_mult mr rounds c n s)
            × Ends (bench_scalar_mult mr rounds c n s)
            × Ends (bench_scalar_div mr rounds c n s)
            × Ends (bench_point_add mr rounds c n s))
          × (Ends (bench_pair mr rounds n s)
              × Ends (bench_generate_re_key mr rounds n s)
              × Ends (bench_re_encrypt mr rounds n s))
          × Ends (bench_generate_key mr rounds cr derive_rounds n s)
    operations c n s h =
        operations_return laws cr crypto mr rand_laws rounds supplies derive_rounds c n s h derives

    -- A benchmark that leaves the reader as it is.
    kept_reader :
        (f : mr.Source → Result mr.Source) (r : Reader) (s : mr.Source)
        → Ends (f s)
        → Ends (on_source cr mr rounds derive_rounds f (r, s))
    kept_reader f r s (s', e) = ((r, s'), rw e)

    run-Ends :
        (call : Call) (n : ℕ) (r : Reader) (s : mr.Source)
        → IsCall call
        → Feeds call n r
        → Ends (run cr mr rounds derive_rounds call n (r, s))
    unfolding run
    run-Ends (scalar_mult c) n r s valid feeds =
        kept_reader (bench_scalar_mult mr rounds c n) r s (operations c n s valid).0.1
    run-Ends (scalar_div c) n r s valid feeds =
        kept_reader (bench_scalar_div mr rounds c n) r s (operations c n s valid).0.2
    run-Ends (point_add c) n r s valid feeds =
        kept_reader (bench_point_add mr rounds c n) r s (operations c n s valid).0.3
    run-Ends pair n r s valid feeds =
        kept_reader (bench_pair mr rounds n) r s (operations 0 n s (omega arith)).1.0
    run-Ends re_key n r s valid feeds =
        kept_reader (bench_generate_re_key mr rounds n) r s (operations 0 n s (omega arith)).1.1
    run-Ends proxy n r s valid feeds =
        kept_reader (bench_re_encrypt mr rounds n) r s (operations 0 n s (omega arith)).1.2
    run-Ends key n r s valid feeds =
        kept_reader (bench_generate_key mr rounds cr derive_rounds n) r s
          (operations 0 n s (omega arith)).2
    run-Ends (seal size) n r s (k, same) (r', draws) =
        let (s', e) = encrypt_rounds laws cr crypto mr rand_laws rounds supplies k n r r' s draws in
        ((r', s'), ap (λ (z : ℤ). bench_encrypt mr rounds cr z n (r, s)) same ∙ e)
    run-Ends (unseal size) n r s (k, same) (r', draws) =
        let (s', e) = decrypt_rounds laws cr crypto mr rand_laws rounds supplies k n r r' s draws in
        ((r', s'), ap (λ (z : ℤ). bench_decrypt mr rounds cr z n (r, s)) same ∙ e)
    run-Ends (seal_closure size) n r s (k, same) enough =
        let (r', s', e) =
          aes_encrypt_rounds laws cr crypto mr rand_laws rounds supplies k n r s enough in
        ((r', s'), ap (λ (z : ℤ). bench_aes_encrypt mr rounds cr z n (r, s)) same ∙ e)
    run-Ends (share size count) n r s (k, c, same, same', positive) draws =
        let (st, e) = share_rounds k c n r s positive draws in
        (
          st,
          ap₂ (λ (z w : ℤ). bench_share_message cr mr rounds derive_rounds z w n (r, s)) same same'
              ∙ e,
        )

    -- If math/rand draws a scalar in the given rounds from every state of its source, and the keys of
    -- all points of G1 are derived in the given rounds, then each of the benchmarks that
    -- ExecutionResults measures returns without b.Fatal and without a fault, for every number of
    -- rounds b.N for which crypto/rand gives what the call draws.
    pub execution_results_return :
        (i n : ℕ) (res : ExecResult) (r : Reader) (s : mr.Source)
        → get_elem? execution_results i ≡ some res
        → Feeds res.call n r
        → Ends (run cr mr rounds derive_rounds res.call n (r, s))
    execution_results_return i n res r s here feeds =
        run-Ends res.call n r s
          (All-get_elem? (λ (x : ExecResult). IsCall x.call) execution_results i res
            execution_results-IsCall here)
          feeds

-- ===== src/Bench/Setup/Rounds.antt =====
-- benchShareMessage of bench/proxyot.go: what it prepares is shared without an error.
use proxyot.Prelude.{
  ℕ, zero, suc, ◌+◌, ◌*◌, ◌%◌, ◌≤◌, ◌<◌, ◌≡◌, ◌≢◌, arith, true, false, List, Option, length, All,
  drop,
}
use proxyot.Prelude.Result.{ok}
use proxyot.BigInt.{pos}
use proxyot.Rand.{Reader}
use proxyot.Bn256.{Bn256, IsPairing}
use proxyot.Crypto.{Bytes, Crypto, IsCrypto, block_size}
use proxyot.Curve.{Point, type_g1, random_field_element, new_point, scalar_base_mult}
use proxyot.Curve.Calculus.{mult1}
use proxyot.Ot.Keys.{key_row, key_scalar, seal_choice_mult, calculate_key_points_mult}
use proxyot.MathRand.{MathRand, IsMathRand}
use proxyot.MathRand.Laws.{int63n_returns}
use proxyot.Bench.{share_points, share_messages}
use proxyot.Bench.Sharing.{Derives, share_exact}
use proxyot.Bench.Draws.{rand_point_and_key}
use proxyot.Bench.Setup.{init_share_messages, share_message_round}
use proxyot.Bench.Setup.Returns.{Supplies, supplied, init_share_messages_returns}

module _ ⦃bn : Bn256⦄ (laws : IsPairing bn) (cr : Crypto) (crypto : IsCrypto cr) (mr : MathRand)
    (rand_laws : IsMathRand mr) (rounds derive_rounds : ℕ) where
  -- The keys of all points of G1 are derived in the given rounds.
  abbrev AllDerive : Type 0
  AllDerive = (m : ℕ) → Derives laws cr crypto derive_rounds (mult1 m)

  key_row-Derives :
      (t y a i n : ℕ) → AllDerive → All (Derives laws cr crypto derive_rounds) (key_row t y a i n)
  key_row-Derives t y a i zero derives = tt
  key_row-Derives t y a i (suc n) derives =
      (derives (key_scalar t y a i), key_row-Derives t y a (suc i) n derives)

  -- Three scalars are drawn from the reader, with the 16 bytes of a vector behind the first.
  abbrev pub ThreeDraws : Reader → Reader → Type 0
  ThreeDraws r r' =
      (n : ℕ) × (rest : Reader) × (l : ℕ) × (rest' : Reader) × (t : ℕ) × (random_field_element r
        ≡ ok (pos n, rest))
      × (block_size ≤ length rest)
      × (random_field_element (drop block_size rest) ≡ ok (pos l, rest'))
      × (random_field_element rest' ≡ ok (pos t, r'))

  without_decryption :
      (a b count : ℕ) (target : ℕ) (points : List Point) (c : Bytes) (r r' : Reader)
      (a_primes : List (Option Point)) (l_prime : Point)
      → share_points cr derive_rounds (pos a) (mult1 a) (mult1 b) points (pos count) (pos target) r
        ≡ ok ((a_primes, l_prime), r')
      → share_messages cr derive_rounds
          (pos a)
          (pos b)
          (mult1 a)
          (mult1 b)
          points
          c
          (pos count)
          (pos target)
          false
          r
        ≡ ok (tt, r')
  unfolding share_messages
  without_decryption a b count target points c r r' a_primes l_prime e = rw e

  -- Let Alice's key a be not 0 modulo the order, Bob's be b, and t below the count. If the source of
  -- crypto/rand gives three scalars and 16 bytes behind the first, math/rand draws a scalar in the
  -- given rounds from every state, and every key is derived in the given rounds, then
  -- initShareMessages for the target t + 1 returns count points and a ciphertext, and with these
  -- shareMessages for this target returns without an error, with the decryption and without it.
  pub prepared_share :
      (a b t count size : ℕ) (r r' : Reader) (s : mr.Source)
      → a % bn.order ≢ 0
      → t < count
      → Supplies laws cr crypto mr rand_laws rounds
      → AllDerive
      → ThreeDraws r r'
      → (points : List Point) × (c : Bytes) × (r1 : Reader) × (s' : mr.Source)
        × (init_share_messages cr mr rounds (mult1 a) (pos size) (pos count) (pos (suc t)) (r, s)
            ≡ ok ((points, c), (r1, s')))
        × (length points ≡ count)
        × (share_messages cr derive_rounds
              (pos a)
              (pos b)
              (mult1 a)
              (mult1 b)
              points
              c
              (pos count)
              (pos (suc t))
              true
              r1
            ≡ ok (tt, r'))
        × (share_messages cr derive_rounds
              (pos a)
              (pos b)
              (mult1 a)
              (mult1 b)
              points
              c
              (pos count)
              (pos (suc t))
              false
              r1
            ≡ ok (tt, r'))
  prepared_share a b t count size r r' s na below supplies derives
        (n, rest, l, rest', k, drawn, enough, drawn', drawn'') =
      let (points, c, s', message, p, run, len, in_g1, size_eq, encrypted, here) =
        init_share_messages_returns laws cr crypto mr rand_laws rounds a t size supplies n r rest
          drawn enough count s below in
      let (a_primes, q, shared, _, _, decrypted) =
        share_exact laws cr crypto derive_rounds a b t count message c points
          (key_row k (a * suc t + b * l) a 1 count) p _ _ _ r (drop block_size rest)
          (drop block_size rest) rest' r' na below (omega (arith, len)) in_g1 encrypted here
          (seal_choice_mult laws (suc t) a b l (drop block_size rest) rest' drawn')
          (calculate_key_points_mult laws k (a * suc t + b * l) l a count rest' r' drawn'')
          (key_row-Derives k (a * suc t + b * l) a 1 count derives) in
      (
        points,
        c,
        drop block_size rest,
        s',
        run,
        len,
        decrypted,
        without_decryption a b count (suc t) points c (drop block_size rest) r' a_primes _ shared,
      )

  key_returns :
      (s : mr.Source)
      → Supplies laws cr crypto mr rand_laws rounds
      → (a : ℕ) × (s' : mr.Source) × (a % bn.order ≢ 0)
        × (rand_point_and_key mr rounds type_g1 s ≡ ok ((pos a, mult1 a), s'))
  unfolding rand_point_and_key new_point scalar_base_mult
  key_returns s supplies =
      let (a, s', run, na) = supplied laws cr crypto mr rand_laws rounds supplies s in
      (a, s', na, rw run)

  -- Under the same conditions on the sources and the keys, a round of benchShareMessage with a size
  -- not below 0 and a count above 0 returns without an error, for the keys, the target and the
  -- messages that it draws.
  pub share_message_round_returns :
      (size count : ℕ) (r r' : Reader) (s : mr.Source)
      → 0 < count
      → Supplies laws cr crypto mr rand_laws rounds
      → AllDerive
      → ThreeDraws r r'
      → (s' : mr.Source) × (share_message_round cr mr rounds derive_rounds
            (pos size)
            (pos count)
            (r, s)
          ≡ ok (r', s'))
  unfolding share_message_round
  share_message_round_returns size count r r' s positive supplies derives draws =
      let (a, s1, na, alice) = key_returns s supplies in
      let (b, s2, _, bob) = key_returns s1 supplies in
      let (t, s3, target, below) = int63n_returns mr rand_laws count s2 positive in
      let (points, c, r1, s4, run, _, _, shared) =
        prepared_share a b t count size r r' s3 na below supplies derives draws in
      (s4, rw (alice, bob, target, run, shared))

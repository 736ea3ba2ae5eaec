-- ===== src/Bench/Operations/Ciphers.antt =====
-- The benchmarks of bench/proxyot.go that encrypt and decrypt: b.Fatal is not reached.
use proxyot.Prelude.{
  ℕ, zero, suc, ◌*◌, ◌≤◌, ◌≡◌, refl, sym, ap, ◌∙◌, arith, length, drop, length-drop, leb_iff,
}
use proxyot.Prelude.Result.{Result, ok, ◌>>=◌}
use proxyot.BigInt.{pos}
use proxyot.Rand.{Reader}
use proxyot.Bn256.{Bn256, IsPairing}
use proxyot.Crypto.{Bytes, Crypto, IsCrypto, block_size}
use proxyot.Curve.{new_point, scalar_base_mult, marshal, random_field_element}
use proxyot.Curve.Calculus.{mult_t}
use proxyot.Pre.Cipher.{new_encrypt_closure, new_decrypt_closure}
use proxyot.Pre.Cipher.RoundTrip.{text_of, new_encrypt_closure_lem, encrypts, decrypts}
use proxyot.Pre.Delegation.{encrypt_mult, delegation}
use proxyot.MathRand.{MathRand, IsMathRand}
use proxyot.Bench.Draws.{rand_point_and_key}
use proxyot.Bench.Setup.Returns.{Supplies, supplied, must_make_random_bytes_returns}
use proxyot.Bench.Operations.{
  repeat, discard, bench_encrypt, bench_aes_encrypt, bench_decrypt, bench_aes_decrypt,
}
use proxyot.Bench.Operations.Curves.{rand_point-mult}

module _ ⦃bn : Bn256⦄ where
  -- A round's draw from crypto/rand: a scalar, with the 16 bytes of a vector behind it.
  abbrev pub EncryptDraws : ℕ → Reader → Reader → Type 0
  EncryptDraws zero r r' = r' ≡ r
  EncryptDraws (suc n) r r' =
      (k : ℕ) × (rest : Reader) × (random_field_element r ≡ ok (pos k, rest))
      × (block_size ≤ length rest)
      × EncryptDraws n (drop block_size rest) r'

  module _ (laws : IsPairing bn) (cr : Crypto) (crypto : IsCrypto cr) (mr : MathRand)
      (rand_laws : IsMathRand mr) (rounds : ℕ)
      (supplies : Supplies laws cr crypto mr rand_laws rounds) where
    -- Rounds that each make a draw of their own.
    draw_rounds :
        (round : Reader × mr.Source → Result (Reader × mr.Source))
        → ((k : ℕ) (r rest : Reader) (s : mr.Source)
            → random_field_element r ≡ ok (pos k, rest)
            → block_size ≤ length rest
            → (s' : mr.Source) × (round (r, s) ≡ ok (drop block_size rest, s')))
        → (n : ℕ) (r r' : Reader) (s : mr.Source) → EncryptDraws n r r'
        → (s' : mr.Source) × (repeat n round (r, s) ≡ ok (r', s'))
    unfolding repeat
    draw_rounds round h zero r r' s e = (s, ap (λ (x : Reader). ok (x, s)) (sym e))
    draw_rounds round h (suc n) r r' s (k, rest, drawn, enough, draws) =
        let (s1, one) = h k r rest s drawn enough in
        let (s2, run) = draw_rounds round h n (drop block_size rest) r' s1 draws in
        (s2, rw (one, run))

    -- Rounds that each take a vector.
    vector_rounds :
        (round : Reader × mr.Source → Result (Reader × mr.Source))
        → ((r : Reader) (s : mr.Source)
            → block_size ≤ length r
            → (s' : mr.Source) × (round (r, s) ≡ ok (drop block_size r, s')))
        → (n : ℕ) (r : Reader) (s : mr.Source) → n * block_size ≤ length r
        → (r' : Reader) × (s' : mr.Source) × (repeat n round (r, s) ≡ ok (r', s'))
    unfolding repeat
    vector_rounds round h zero r s enough = (r, s, refl)
    vector_rounds round h (suc n) r s enough =
        let (s1, one) = h r s (omega arith) in
        let (r', s2, run) =
          vector_rounds round h n (drop block_size r) s1
            (omega (arith, length-drop block_size r)) in
        (r', s2, rw (one, run))

    discards :
        (key m : Bytes) (r : Reader)
        → block_size ≤ length r
        → new_encrypt_closure cr (ok m) discard key r ≡ ok (tt, drop block_size r)
    discards key m r enough =
        new_encrypt_closure_lem cr crypto discard key m r
        ∙ rw ((leb_iff block_size (length r)).1 enough)

    pub encrypt_rounds :
        (size n : ℕ) (r r' : Reader) (s : mr.Source)
        → EncryptDraws n r r'
        → (s' : mr.Source) × (bench_encrypt mr rounds cr (pos size) n (r, s) ≡ ok (r', s'))
    unfolding bench_encrypt
    encrypt_rounds size n r r' s draws =
        draw_rounds _
          (λ k r rest s drawn enough.
            let (message, s1, made, _) = must_make_random_bytes_returns mr rand_laws size s in
            let (a, s2, pk) =
              rand_point-mult laws cr crypto mr rand_laws rounds supplies 0 s1 (omega arith) in
            (
              s2,
              rw (
                made,
                pk,
                encrypt_mult laws a k (new_encrypt_closure cr (ok message) discard) r rest _ tt
                    drawn (discards (marshal (mult_t k)) message rest enough),
              ),
            ))
          n r r' s draws

    pub decrypt_rounds :
        (size n : ℕ) (r r' : Reader) (s : mr.Source)
        → EncryptDraws n r r'
        → (s' : mr.Source) × (bench_decrypt mr rounds cr (pos size) n (r, s) ≡ ok (r', s'))
    unfolding bench_decrypt rand_point_and_key new_point scalar_base_mult
    decrypt_rounds size n r r' s draws =
        draw_rounds _
          (λ k r rest s drawn enough.
            let (a, s1, alice, na) = supplied laws cr crypto mr rand_laws rounds supplies s in
            let (b, s2, bob, nb) = supplied laws cr crypto mr rand_laws rounds supplies s1 in
            let (message, s3, made, _) = must_make_random_bytes_returns mr rand_laws size s2 in
            let written =
              encrypts cr crypto (marshal (mult_t k)) message rest
                ((leb_iff block_size (length rest)).1 enough) in
            let text = text_of cr crypto (marshal (mult_t k)) _ message in
            let encrypted =
              encrypt_mult laws a k (new_encrypt_closure cr (ok message) ok) r rest _ text drawn
                written in
            let (key, rest', rk, q, written', _, re_key, re_encrypted, receiver) =
              delegation laws a b (new_encrypt_closure cr (ok message) ok)
                (new_decrypt_closure cr (ok text) discard) r _ _ _ na nb encrypted in
            (
              s3,
              rw (
                alice,
                bob,
                made,
                encrypted,
                re_key,
                re_encrypted,
                receiver,
                (decrypts cr crypto discard key message text rest' _ written').0,
              ),
            ))
          n r r' s draws

    same_key :
        (key message : Bytes) (n : ℕ) (r : Reader)
        → n * block_size ≤ length r
        → (r' : Reader) × (repeat n
              (λ r. new_encrypt_closure cr (ok message) discard key r >>= λ (done, r'). ok r')
              r
            ≡ ok r')
    unfolding repeat
    same_key key message zero r enough = (r, refl)
    same_key key message (suc n) r enough =
        let (r', run) =
          same_key key message n (drop block_size r)
            (omega (arith, enough, length-drop block_size r)) in
        (r', rw (discards key message r (omega arith), run))

    pub aes_encrypt_rounds :
        (size n : ℕ) (r : Reader) (s : mr.Source)
        → n * block_size ≤ length r
        → (r' : Reader) × (s' : mr.Source) × (bench_aes_encrypt mr rounds cr (pos size) n (r, s)
            ≡ ok (r', s'))
    unfolding bench_aes_encrypt
    aes_encrypt_rounds size n r s enough =
        let (message, s1, made, _) = must_make_random_bytes_returns mr rand_laws size s in
        let (k, s2, drawn) =
          rand_point-mult laws cr crypto mr rand_laws rounds supplies 2 s1 (omega arith) in
        let (r', run) = same_key (marshal (mult_t k)) message n r enough in
        (r', s2, rw (made, drawn, run))

    aes_decrypt_rounds :
        (size n : ℕ) (r : Reader) (s : mr.Source)
        → n * block_size ≤ length r
        → (r' : Reader) × (s' : mr.Source) × (bench_aes_decrypt mr rounds cr (pos size) n (r, s)
            ≡ ok (r', s'))
    unfolding bench_aes_decrypt
    aes_decrypt_rounds size n r s enough =
        vector_rounds _
          (λ r s enough.
            let (message, s1, made, _) = must_make_random_bytes_returns mr rand_laws size s in
            let (k, s2, drawn) =
              rand_point-mult laws cr crypto mr rand_laws rounds supplies 2 s1 (omega arith) in
            let written =
              encrypts cr crypto (marshal (mult_t k)) message r
                ((leb_iff block_size (length r)).1 enough) in
            (
              s2,
              rw (
                made,
                drawn,
                written,
                (decrypts cr crypto discard (marshal (mult_t k)) message _ r _ written).0,
              ),
            ))
          n r s enough

    -- If math/rand draws a scalar in the given rounds from every state of its source, the benchmarks
    -- that encrypt and decrypt never reach b.Fatal, for every number of rounds b.N and every size not
    -- below 0: those of re-encryption where the source of crypto/rand gives a scalar and 16 bytes for
    -- each round, those of the closures alone where it has 16 bytes for each.
    pub ciphers_return :
        (size n : ℕ) (r r' r'' : Reader) (s : mr.Source)
        → EncryptDraws n r r'
        → n * block_size ≤ length r''
        → ((s' : mr.Source) × (bench_encrypt mr rounds cr (pos size) n (r, s) ≡ ok (r', s')))
          × ((s' : mr.Source) × (bench_decrypt mr rounds cr (pos size) n (r, s) ≡ ok (r', s')))
          × ((q : Reader) × (s' : mr.Source) × (bench_aes_encrypt mr rounds cr (pos size) n (r'', s)
                ≡ ok (q, s')))
          × ((q : Reader) × (s' : mr.Source) × (bench_aes_decrypt mr rounds cr (pos size) n (r'', s)
                ≡ ok (q, s')))
    ciphers_return size n r r' r'' s draws enough = (
      encrypt_rounds size n r r' s draws,
      decrypt_rounds size n r r' s draws,
      aes_encrypt_rounds size n r'' s enough,
      aes_decrypt_rounds size n r'' s enough,
    )

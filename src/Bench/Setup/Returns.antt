-- ===== src/Bench/Setup/Returns.antt =====
-- initShareMessages of bench/proxyot.go: it returns the points and the ciphertext of the message
-- that is chosen.
use proxyot.Prelude.{
  ℕ, zero, suc, ◌+◌, ◌*◌, ◌%◌, ◌≤◌, ◌<◌, ◌≡◌, ◌≢◌, refl, ap, ◌∙◌, arith, some, List, [], ◌∷◌,
  length, get_elem?, All, drop, ==_iff, ==-false_iff, leb_iff,
}
use proxyot.Prelude.Result.{Result, ok}
use proxyot.BigInt.{ℤ, pos}
use proxyot.Rand.{Reader}
use proxyot.Bn256.{Bn256, IsPairing}
use proxyot.Crypto.{Bytes, Crypto, IsCrypto, block_size}
use proxyot.Curve.{Point, marshal, random_field_element}
use proxyot.Curve.Calculus.{mult1, mult_t, scalar_mult1}
use proxyot.Pre.Cipher.{new_encrypt_closure}
use proxyot.Pre.Cipher.RoundTrip.{encrypts}
use proxyot.Pre.Delegation.{encrypt_mult}
use proxyot.MathRand.{MathRand, IsMathRand}
use proxyot.Bench.{encrypt_message}
use proxyot.Bench.Loops.{InG1}
use proxyot.Bench.Draws.{must_make_random_bytes, rand_field_element}
use proxyot.Bench.Draws.Range.{rand_number}
use proxyot.Bench.Setup.{own_message, other_message, init_message, init_loop, init_share_messages}

-- rand.Read does not fail.
pub must_make_random_bytes_returns :
    (mr : MathRand) (laws : IsMathRand mr) (n : ℕ) (s : mr.Source)
    → (bytes : Bytes) × (s' : mr.Source) × (must_make_random_bytes mr (pos n) s ≡ ok (bytes, s'))
      × (length bytes ≡ n)
unfolding must_make_random_bytes
must_make_random_bytes_returns mr laws n s =
    let (bytes, s', run, len) = laws.read_returns n s in
    (bytes, s', rw (must_make_random_bytes, run), len)

module _ ⦃bn : Bn256⦄ (laws : IsPairing bn) (cr : Crypto) (crypto : IsCrypto cr) (mr : MathRand)
    (rand_laws : IsMathRand mr) (rounds : ℕ) where
  -- math/rand draws a scalar in the given rounds, whatever its source holds.
  abbrev pub Supplies : Type 0
  Supplies =
      (s : mr.Source) → (k : ℤ) × (s' : mr.Source) × (rand_field_element mr rounds s ≡ ok (k, s'))

  pub supplied :
      Supplies
      → (s : mr.Source)
      → (n : ℕ) × (s' : mr.Source) × (rand_field_element mr rounds s ≡ ok (pos n, s'))
        × (n % bn.order ≢ 0)
  supplied supplies s =
      let (k, s', run) = supplies s in
      let (n, k_eq, nz) = rand_number mr rounds s s' k (omega (arith, laws.prime.above_one)) run in
      (n, s', run ∙ ap (λ (j : ℤ). ok (j, s')) k_eq, nz)

  -- A message that is encrypted with a scalar and 16 bytes drawn.
  pub encrypt_message_mult :
      (a n : ℕ) (message : Bytes) (r rest : Reader)
      → random_field_element r ≡ ok (pos n, rest)
      → block_size ≤ length rest
      → (text : Bytes) × (encrypt_message cr (mult1 a) message r
          ≡ ok ((mult1 (a * n), text), drop block_size rest))
        × (new_encrypt_closure cr (ok message) ok (marshal (mult_t n)) rest
            ≡ ok (text, drop block_size rest))
  unfolding encrypt_message
  encrypt_message_mult a n message r rest drawn enough =
      let written =
        encrypts cr crypto (marshal (mult_t n)) message rest
          ((leb_iff block_size (length rest)).1 enough) in
      (
        _,
        encrypt_mult laws a n (new_encrypt_closure cr (ok message) ok) r rest _ _ drawn written,
        written,
      )

  other_message_returns :
      (a : ℕ) (r : Reader) (s : mr.Source)
      → Supplies
      → (m : ℕ) × (s' : mr.Source) × (other_message cr mr rounds (mult1 a) (r, s)
          ≡ ok (mult1 m, (r, s')))
  unfolding other_message
  other_message_returns a r s supplies =
      let (n, s', run, _) = supplied supplies s in
      (a * n, s', rw (run, scalar_mult1 laws bn.g1.zero_value a n))

  module _ (a t size : ℕ) (supplies : Supplies) where
    abbrev round : ℕ → Bytes → Reader × mr.Source → Result ((Point × Bytes) × (Reader × mr.Source))
    round = init_message cr mr rounds (mult1 a) (pos size) (pos (suc t))

    abbrev loop :
        ℕ → ℕ → Bytes → Reader × mr.Source → Result ((List Point × Bytes) × (Reader × mr.Source))
    loop = init_loop cr mr rounds (mult1 a) (pos size) (pos (suc t))

    not_chosen :
        (i : ℕ) (c : Bytes) (r : Reader) (s : mr.Source)
        → i ≢ t
        → (m : ℕ) × (s' : mr.Source) × (round i c (r, s) ≡ ok ((mult1 m, c), (r, s')))
    unfolding init_message
    not_chosen i c r s ne =
        let (m, s', run) = other_message_returns a r s supplies in
        (m, s', rw ((==-false_iff i t).1 ne, run))

    -- Behind the chosen message.
    init_loop_after :
        (left i : ℕ) (c : Bytes) (r : Reader) (s : mr.Source)
        → t < i
        → (points : List Point) × (s' : mr.Source) × (loop i left c (r, s)
            ≡ ok ((points, c), (r, s')))
          × (length points ≡ left)
          × All InG1 points
    unfolding init_loop
    init_loop_after zero i c r s after = ([], s, refl, refl, tt)
    init_loop_after (suc left) i c r s after =
        let (m, s1, one) = not_chosen i c r s (λ e. omega arith) in
        let (points, s2, rest, len, in_g1) = init_loop_after left (suc i) c r s1 (omega arith) in
        (mult1 m ∷ points, s2, rw (one, rest), ap suc len, ((m, refl), in_g1))

    -- What the loop leaves: the points, and the chosen one with its message.
    abbrev Prepared :
        ℕ → ℕ → Reader → Reader → Result ((List Point × Bytes) × (Reader × mr.Source)) → Type 0
    Prepared left k r r' run =
        (points : List Point) × (c : Bytes) × (s' : mr.Source) × (message : Bytes) × (p : Point)
        × (run ≡ ok ((points, c), (r', s')))
        × (length points ≡ left)
        × All InG1 points
        × (length message ≡ size)
        × (encrypt_message cr (mult1 a) message r ≡ ok ((p, c), r'))
        × (get_elem? points k ≡ some p)

    module _ (n : ℕ) (r rest : Reader) (drawn : random_field_element r ≡ ok (pos n, rest))
        (enough : block_size ≤ length rest) where
      chosen :
          (c : Bytes) (s : mr.Source)
          → (message text : Bytes) × (s' : mr.Source) × (round t c (r, s)
              ≡ ok ((mult1 (a * n), text), (drop block_size rest, s')))
            × (length message ≡ size)
            × (encrypt_message cr (mult1 a) message r
                ≡ ok ((mult1 (a * n), text), drop block_size rest))
      unfolding init_message own_message
      chosen c s =
          let (message, s', made, len) = must_make_random_bytes_returns mr rand_laws size s in
          let (text, encrypted, _) = encrypt_message_mult a n message r rest drawn enough in
          (message, text, s', rw ((==_iff t t).1 refl, made, encrypted), len, encrypted)

      init_loop_returns :
          (k left i : ℕ) (c : Bytes) (s : mr.Source)
          → i + k ≡ t
          → k < left
          → Prepared left k r (drop block_size rest) (loop i left c (r, s))
      unfolding init_loop
      init_loop_returns k zero i c s at below = absurd (omega arith)
      init_loop_returns zero (suc left) i c s at below =
          let (message, text, s1, one, size_eq, encrypted) = chosen c s in
          let (points, s2, run, len, in_g1) =
            init_loop_after left (suc i) text (drop block_size rest) s1 (omega arith) in
          let here : i ≡ t = omega arith in
          (
            mult1 (a * n) ∷ points,
            text,
            s2,
            message,
            mult1 (a * n),
            rw (ap (λ (j : ℕ). round j c (r, s)) here ∙ one, run),
            ap suc len,
            ((a * n, refl), in_g1),
            size_eq,
            encrypted,
            refl,
          )
      init_loop_returns (suc k) (suc left) i c s at below =
          let (m, s1, one) = not_chosen i c r s (λ e. omega arith) in
          let (points, text, s2, message, p, run, len, in_g1, size_eq, encrypted, here) =
            init_loop_returns k left (suc i) c s1 (omega arith) (omega arith) in
          (
            mult1 m ∷ points,
            text,
            s2,
            message,
            p,
            rw (one, run),
            ap suc len,
            ((m, refl), in_g1),
            size_eq,
            encrypted,
            here,
          )

      pub init_share_messages_returns :
          (count : ℕ) (s : mr.Source)
          → t < count
          → Prepared count t r (drop block_size rest) (
              init_share_messages cr mr rounds
                (mult1 a)
                (pos size)
                (pos count)
                (pos (suc t))
                (r, s))
      unfolding init_share_messages
      init_share_messages_returns count s below =
          init_loop_returns t count 0 [] s (omega arith) below

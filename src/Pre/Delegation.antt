-- ===== src/Pre/Delegation.antt =====
-- Whoever decrypts, owner or receiver, hands its closure the key that was encrypted under.
use native.Mathlib.Nat.{mod-eq_of_lt, mul-one}
use proxyot.Prelude.{ℕ, ◌*◌, ◌%◌, ◌≡◌, ◌≢◌, sym, ap, ◌∙◌, arith}
use proxyot.Prelude.Result.{ok, ◌>>=◌, >>=-eq-ok, ok-injective}
use proxyot.BigInt.{pos}
use proxyot.BigInt.Residue.{mul_congr}
use proxyot.BigInt.Inverse.{mod_inverse_prime}
use proxyot.Rand.{Reader}
use proxyot.Crypto.{Bytes}
use proxyot.Bn256.{Bn256, IsPairing}
use proxyot.Curve.{Point, marshal, random_field_element}
use proxyot.Curve.Field.{Draws, Draws-of}
use proxyot.Curve.Calculus.{
  mult1, mult2, mult_t, scalar_mult1, scalar_mult2, scalar_mult_t, pair_mult, mult_t-congr,
}
use proxyot.Pre.{
  EncryptClosure, DecryptClosure, encrypt, generate_re_key, re_encrypt, decrypt_by_receiver,
  decrypt_by_owner,
}

module _ ⦃bn : Bn256⦄ (laws : IsPairing bn) where
  -- A factor with its inverse can be left out.
  with_inverse : (x a i : ℕ) → a * i % bn.order ≡ 1 → x * (a * i) % bn.order ≡ x % bn.order
  with_inverse x a i e =
      mul_congr bn.order (a * i) 1 x (e ∙ sym (mod-eq_of_lt laws.prime.above_one))
      ∙ ap (λ (t : ℕ). t % bn.order) (mul-one x)

  pub encrypt_mult :
      {W : Type 0} (a n : ℕ) (f : EncryptClosure W) (r rest r' : Reader) (w : W)
      → random_field_element r ≡ ok (pos n, rest)
      → f (marshal (mult_t n)) rest ≡ ok (w, r')
      → encrypt (mult1 a) f r ≡ ok ((mult1 (a * n), w), r')
  unfolding encrypt
  encrypt_mult a n f r rest r' w drawn written =
      rw (drawn, scalar_mult1 laws bn.g1.zero_value a n, written)

  pub generate_re_key_mult :
      (a b : ℕ)
      → a % bn.order ≢ 0
      → (i : ℕ) × (a * i % bn.order ≡ 1) × (generate_re_key (pos a) (pos b) ≡ ok (mult2 (b * i)))
  unfolding generate_re_key
  generate_re_key_mult a b na =
      let (i, found, _, inverse) = mod_inverse_prime bn.order a laws.prime na in
      (i, inverse, rw (found, scalar_mult2 laws _ b i))

  pub re_encrypt_mult : (m n : ℕ) → re_encrypt (mult1 m) (mult2 n) ≡ ok (mult_t (m * n))
  unfolding re_encrypt
  re_encrypt_mult m n = ap (λ (p : Point). ok p) (pair_mult laws m n)

  pub decrypt_by_receiver_mult :
      {W : Type 0} (m b : ℕ) (f : DecryptClosure W)
      → b % bn.order ≢ 0
      → (i : ℕ) × (b * i % bn.order ≡ 1)
        × (decrypt_by_receiver (mult_t m) (pos b) f ≡ f (marshal (mult_t (m * i))))
  unfolding decrypt_by_receiver
  decrypt_by_receiver_mult m b f nb =
      let (i, found, _, inverse) = mod_inverse_prime bn.order b laws.prime nb in
      (i, inverse, rw (found, scalar_mult_t laws bn.gt.zero_value m i))

  pub decrypt_by_owner_mult :
      {W : Type 0} (m a : ℕ) (f : DecryptClosure W)
      → a % bn.order ≢ 0
      → (i : ℕ) × (a * i % bn.order ≡ 1)
        × (decrypt_by_owner (mult1 m) (pos a) f ≡ f (marshal (mult_t (m * i * 1))))
  unfolding decrypt_by_owner
  decrypt_by_owner_mult m a f na =
      let (i, found, _, inverse) = mod_inverse_prime bn.order a laws.prime na in
      (i, inverse, rw (found, scalar_mult1 laws bn.g1.zero_value m i, pair_mult laws (m * i) 1))

  encrypt-Draws :
      {W : Type 0} (p : Point) (f : EncryptClosure W) (r : Reader) {x : (Point × W) × Reader}
      → encrypt p f r ≡ ok x
      → Draws r
  unfolding encrypt
  encrypt-Draws p f r e = Draws-of r _ e

  -- What follows the drawing.
  encrypt_rest :
      {W : Type 0} (a n : ℕ) (f : EncryptClosure W) (r rest : Reader)
      → random_field_element r ≡ ok (pos n, rest)
      → encrypt (mult1 a) f r
        ≡ (f (marshal (mult_t n)) rest >>= λ (w, r'). ok ((mult1 (a * n), w), r'))
  unfolding encrypt
  encrypt_rest a n f r rest drawn = rw (drawn, scalar_mult1 laws bn.g1.zero_value a n)

  pub encrypt-inv :
      {W : Type 0} (a : ℕ) (f : EncryptClosure W) (r r' : Reader) (p : Point) (w : W)
      → encrypt (mult1 a) f r ≡ ok ((p, w), r')
      → (n : ℕ) × (rest : Reader) × (p ≡ mult1 (a * n)) × (f (marshal (mult_t n)) rest ≡ ok (w, r'))
  encrypt-inv a f r r' p w e =
      let (n, rest, _, drawn) = encrypt-Draws (mult1 a) f r e in
      let ((v, r''), written, returned) =
        >>=-eq-ok _ (f (marshal (mult_t n)) rest) (sym (encrypt_rest a n f r rest drawn) ∙ e) in
      (
        n,
        rest,
        sym (ap (λ (x : (Point × _) × Reader). x.0.0) (ok-injective returned)),
        written ∙ ap (λ (x : (Point × _) × Reader). ok (x.0.1, x.1)) (ok-injective returned),
      )

  -- With secret keys a and b that are not 0 modulo the order: if Encrypt under a * G1 returns a
  -- point and what its closure wrote, there is one key such that the closure wrote that under this
  -- key; the owner's decryption of the point with a runs its closure on this key; GenerateReKey and
  -- ReEncrypt return, and the receiver's decryption of their result with b runs its closure on this
  -- key too.
  pub delegation :
      {W V : Type 0} (a b : ℕ) (enc : EncryptClosure W) (dec : DecryptClosure V) (r r' : Reader)
      (p : Point) (w : W)
      → a % bn.order ≢ 0
      → b % bn.order ≢ 0
      → encrypt (mult1 a) enc r ≡ ok ((p, w), r')
      → (key : Bytes) × (rest : Reader) × (rk : Point) × (p' : Point) × (enc key rest ≡ ok (w, r'))
        × (decrypt_by_owner p (pos a) dec ≡ dec key)
        × (generate_re_key (pos a) (pos b) ≡ ok rk)
        × (re_encrypt p rk ≡ ok p')
        × (decrypt_by_receiver p' (pos b) dec ≡ dec key)
  delegation a b enc dec r r' p w na nb e =
      let (n, rest, ep, written) = encrypt-inv a enc r r' p w e in
      let (i, ai, owner) = decrypt_by_owner_mult (a * n) a dec na in
      let (j, aj, re_key) = generate_re_key_mult a b na in
      let (k, bk, receiver) = decrypt_by_receiver_mult (a * n * (b * j)) b dec nb in
      (
        marshal (mult_t n),
        rest,
        mult2 (b * j),
        mult_t (a * n * (b * j)),
        written,
        ap (λ (x : Point). decrypt_by_owner x (pos a) dec) ep
            ∙ owner
            ∙ ap (λ (x : Point). dec (marshal x)) (mult_t-congr laws _ n (owner_scalar n i ai)),
        re_key,
        ap (λ (x : Point). re_encrypt x (mult2 (b * j))) ep ∙ re_encrypt_mult (a * n) (b * j),
        receiver
            ∙ ap (λ (x : Point). dec (marshal x))
                (mult_t-congr laws _ n (receiver_scalar n j k aj bk)),
      )
    where
      owner_scalar : (n i : ℕ) → a * i % bn.order ≡ 1 → a * n * i * 1 % bn.order ≡ n % bn.order
      owner_scalar n i ai = ap (λ (t : ℕ). t % bn.order) (omega arith) ∙ with_inverse n a i ai

      receiver_scalar :
          (n j k : ℕ)
          → a * j % bn.order ≡ 1
          → b * k % bn.order ≡ 1
          → a * n * (b * j) * k % bn.order ≡ n % bn.order
      receiver_scalar n j k aj bk =
          ap (λ (t : ℕ). t % bn.order) (omega arith)
          ∙ with_inverse (n * (a * j)) b k bk
          ∙ with_inverse n a j aj

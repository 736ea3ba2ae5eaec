-- ===== src/Bench/Sharing.antt =====
-- What Bob gets of the messages that Alice shares: the one of his choice.
use native.Mathlib.Nat.{mod-eq_of_lt}
use proxyot.Prelude.{
  ℕ, suc, ◌*◌, ◌%◌, ◌≤◌, ◌<◌, ◌≡◌, ◌≢◌, refl, sym, ap, ap₂, ◌∙◌, arith, true, Option, some, List,
  [], ◌∷◌, length, get_elem?, All,
}
use proxyot.Prelude.Result.{Result, ok, ok-injective}
use proxyot.BigInt.{ℤ, pos, negsuc}
use proxyot.Rand.{Reader}
use proxyot.Bn256.{Bn256, IsPairing}
use proxyot.Crypto.{Bytes, Crypto, IsCrypto}
use proxyot.Curve.{Point, derive_field_element_from_point}
use proxyot.Curve.Field.{IsFieldElement, derive_field_element_from_point-IsFieldElement}
use proxyot.Curve.Calculus.{mult1, mult2}
use proxyot.Ot.{seal_choice, calculate_key_points}
use proxyot.Ot.Correct.{transfer_exact}
use proxyot.Pre.{generate_re_key, re_encrypt, decrypt_by_receiver}
use proxyot.Pre.Delegation.{delegation, generate_re_key_mult}
use proxyot.Pre.Cipher.{new_encrypt_closure, new_decrypt_closure}
use proxyot.Pre.Cipher.RoundTrip.{decrypts}
use proxyot.Bench.{
  encrypt_message, derive_keys_from_points, decrypt_message, share_points, share_messages,
  shared_at,
}
use proxyot.Bench.Loops.{Returns, fill-Returns, InG1, InG2, re_encrypt_loop_returns}

module _ ⦃bn : Bn256⦄ (laws : IsPairing bn) (cr : Crypto) (crypto : IsCrypto cr) (rounds : ℕ) where
  -- A scalar that is not 0 modulo the order.
  abbrev IsUnit : ℤ → Type 0
  IsUnit k = (n : ℕ) × (k ≡ pos n) × (n % bn.order ≢ 0)

  -- The key of a point is derived in the given number of rounds.
  abbrev pub Derives : Point → Type 0
  Derives p = (k : ℤ) × (derive_field_element_from_point cr rounds p ≡ ok k)

  derived-IsUnit :
      (p : Point) (k : ℤ) → derive_field_element_from_point cr rounds p ≡ ok k → IsUnit k
  derived-IsUnit p k e = unit k (
      derive_field_element_from_point-IsFieldElement cr rounds p k
        (omega (arith, laws.prime.above_one)) e)
    where
      unit : (k : ℤ) → IsFieldElement k → IsUnit k
      unit (pos n) (above, below) = (n, refl, omega (arith, mod-eq_of_lt below))
      unit (negsuc n) h = absurd h

  keys-Returns :
      (kps : List Point)
      → All Derives kps
      → All (Returns (derive_field_element_from_point cr rounds) IsUnit) kps
  keys-Returns [] h = tt
  keys-Returns (p ∷ kps) ((k, e), h) = ((k, e, derived-IsUnit p k e), keys-Returns kps h)

  re_keys-Returns :
      (a : ℕ) (ks : List ℤ)
      → a % bn.order ≢ 0
      → All IsUnit ks
      → All (Returns (generate_re_key (pos a)) InG2) ks
  re_keys-Returns a [] na h = tt
  re_keys-Returns a (k ∷ ks) na ((n, e, _), h) =
      let (i, _, run) = generate_re_key_mult laws a n na in
      (
        (mult2 (n * i), ap (generate_re_key (pos a)) e ∙ run, (n * i, refl)),
        re_keys-Returns a ks na h,
      )

  -- What stands in APrimes at an index: the point there, re-encrypted for the key of the key point
  -- there.
  pub share_points_returns :
      (a b count : ℕ) (target : ℤ) (points kps : List Point) (y l l_prime : Point)
      (r r1 r2 : Reader)
      → a % bn.order ≢ 0
      → seal_choice target (mult1 a) (mult1 b) r ≡ ok ((y, l), r1)
      → calculate_key_points y l (mult1 a) (pos count) r1 ≡ ok ((kps, l_prime), r2)
      → All Derives kps
      → All InG1 points
      → length kps ≤ length points
      → (a_primes : List (Option Point)) × (share_points cr rounds
            (pos a)
            (mult1 a)
            (mult1 b)
            points
            (pos count)
            target
            r
          ≡ ok ((a_primes, l_prime), r2))
        × ((i : ℕ) (p kp : Point)
            → get_elem? points i ≡ some p
            → get_elem? kps i ≡ some kp
            → (k : ℤ) × (rk : Point) × (q : Point) × (derive_field_element_from_point cr rounds kp
                ≡ ok k)
              × (generate_re_key (pos a) k ≡ ok rk)
              × (re_encrypt p rk ≡ ok q)
              × (get_elem? a_primes i ≡ some (some q)))
  unfolding share_points derive_keys_from_points
  share_points_returns a b count target points kps y l l_prime r r1 r2 na sealed calculated derives
        in_g1 enough =
      let (ks, run, len, units, place) =
        fill-Returns (derive_field_element_from_point cr rounds) IsUnit kps
          (keys-Returns kps derives) in
      let (rks, run', len', in_g2, place') =
        fill-Returns (generate_re_key (pos a)) InG2 ks (re_keys-Returns a ks na units) in
      let (qs, run'', place'') =
        re_encrypt_loop_returns laws points rks in_g1 in_g2 (omega (arith, len, len', enough)) in
      (
        qs,
        rw (sealed, calculated, run, run', run''),
        λ i p kp e e'.
            let (k, at_k, derived) = place i kp e' in
            let (rk, at_rk, made) = place' i k at_k in
            let (q, at_q, done) = place'' i p rk e at_rk in (k, rk, q, derived, made, done, at_q),
      )

  shared_at_eq :
      (a_primes : List (Option Point)) (t : ℕ) (q : Point)
      → get_elem? a_primes t ≡ some (some q)
      → shared_at a_primes (pos (suc t)) ≡ ok q
  shared_at_eq a_primes t q e = rw (shared_at, e)

  -- A message, encrypted under a, re-encrypted for k and decrypted with it.
  delivered :
      {W : Type 0} (write : Bytes → Result W) (a : ℕ) (k : ℤ) (message c : Bytes) (p rk q : Point)
      (r r' : Reader)
      → a % bn.order ≢ 0
      → IsUnit k
      → encrypt_message cr (mult1 a) message r ≡ ok ((p, c), r')
      → generate_re_key (pos a) k ≡ ok rk
      → re_encrypt p rk ≡ ok q
      → decrypt_by_receiver q k (new_decrypt_closure cr (ok c) write) ≡ write message
  unfolding encrypt_message
  delivered write a k message c p rk q r r' na (n, ek, nn) encrypted made done =
      let (key, rest, rk', q', written, _, made', done', receiver) =
        delegation laws a n (new_encrypt_closure cr (ok message) ok)
          (new_decrypt_closure cr (ok c) write) r r' p c na nn encrypted in
      let same_key : rk ≡ rk' = ok-injective (sym made ∙ ap (generate_re_key (pos a)) ek ∙ made') in
      let same_point : q ≡ q' = ok-injective (sym done ∙ ap (re_encrypt p) same_key ∙ done') in
      ap₂ (λ x j. decrypt_by_receiver x j (new_decrypt_closure cr (ok c) write)) same_point ek
      ∙ receiver
      ∙ (decrypts cr crypto write key message c rest r' written).0

  -- Let Alice's and Bob's keys be a and b, a not 0 modulo the order, and let Alice encrypt a message
  -- and publish its point at the ordinal t + 1 of at least `count` points of G1. If Bob seals the
  -- choice t + 1, at most count, Alice computes count key points from it, and the keys of these points
  -- are derived in the given rounds, then the proxy's points are computed, and Bob decrypts the
  -- message from the one of his choice; so shareMessages returns without an error.
  pub share_exact :
      (a b t count : ℕ) (message c : Bytes) (points kps : List Point) (p y l l_prime : Point)
      (s s' r r1 r2 : Reader)
      → a % bn.order ≢ 0
      → t < count
      → count ≤ length points
      → All InG1 points
      → encrypt_message cr (mult1 a) message s ≡ ok ((p, c), s')
      → get_elem? points t ≡ some p
      → seal_choice (pos (suc t)) (mult1 a) (mult1 b) r ≡ ok ((y, l), r1)
      → calculate_key_points y l (mult1 a) (pos count) r1 ≡ ok ((kps, l_prime), r2)
      → All Derives kps
      → (a_primes : List (Option Point)) × (q : Point) × (share_points cr rounds
            (pos a)
            (mult1 a)
            (mult1 b)
            points
            (pos count)
            (pos (suc t))
            r
          ≡ ok ((a_primes, l_prime), r2))
        × (get_elem? a_primes t ≡ some (some q))
        × (decrypt_message cr rounds (pos b) q l_prime c ≡ ok message)
        × (share_messages cr rounds
              (pos a)
              (pos b)
              (mult1 a)
              (mult1 b)
              points
              c
              (pos count)
              (pos (suc t))
              true
              r
            ≡ ok (tt, r2))
  unfolding decrypt_message share_messages
  share_exact a b t count message c points kps p y l l_prime s s' r r1 r2 na below enough in_g1
        encrypted at_p sealed calculated derives =
      let (kp, kp', revealed, len, at_kp', (_, chosen)) =
        transfer_exact laws (suc t) a b count t r r1 r1 r2 y l l_prime kps na below sealed
          calculated in
      let (a_primes, run, place) =
        share_points_returns a b count (pos (suc t)) points kps y l l_prime r r1 r2 na sealed
          calculated derives in_g1 (omega (arith, len, enough)) in
      let (k, rk, q, derived, made, done, at_q) = place t p kp' at_p at_kp' in
      let unit = derived-IsUnit kp' k derived in
      let derived' : derive_field_element_from_point cr rounds kp ≡ ok k =
        ap (derive_field_element_from_point cr rounds) (sym (chosen refl)) ∙ derived in
      (
        a_primes,
        q,
        run,
        at_q,
        rw (revealed, derived', delivered ok a k message c p rk q s s' na unit encrypted made done),
        rw (
          run,
          revealed,
          derived',
          shared_at_eq a_primes t q at_q,
          delivered (λ _. ok tt) a k message c p rk q s s' na unit encrypted made done,
        ),
      )

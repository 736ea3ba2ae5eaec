-- ===== src/Curve/Field.antt =====
-- Random and derived scalars: their range, and that the loops end.
use mathlib.Core.Path.{subst}
use native.Mathlib.Nat.{mod-lt, mod-eq_of_lt}
use proxyot.Prelude.{
  ◌⊎◌, inl, inr, ℕ, zero, suc, ◌%◌, ◌<◌, ◌≡◌, ◌≢◌, arith, length, if◌then◌else◌, sym, ==-false_iff,
  refl, ap, ◌∙◌,
}
use proxyot.Prelude.Result.{Result, ok, err, read_error, ◌>>=◌, >>=-eq-ok, ok-injective}
use proxyot.BigInt.{ℤ, pos, negsuc, is_positive, emod, mod_int, set_bytes}
use proxyot.Rand.{Reader, rand_int}
use proxyot.Rand.Laws.{rand_int-lt, rand_int-shrinks, rand_int-cases}
use proxyot.Bn256.{Bn256}
use proxyot.Crypto.{Crypto, Bytes}
use proxyot.Curve.{
  Point, marshal, field_element_loop, random_field_element, derive_loop,
  derive_field_element_from_point,
}

module _ ⦃bn : Bn256⦄ where
  -- A number above 0 and below the order.
  abbrev pub IsFieldElement : ℤ → Type 0
  IsFieldElement (pos n) = (0 < n) × (n < bn.order)
  IsFieldElement (negsuc n) = ⊥

  field_element_loop-range :
      (f : ℕ) (r : Reader) (k : ℤ) (r' : Reader)
      → field_element_loop f r ≡ ok (k, r')
      → IsFieldElement k
  unfolding field_element_loop
  field_element_loop-range zero r k r' e = ground arith
  field_element_loop-range (suc f) r k r' e =
      let ((n, rest), drawn, e') = >>=-eq-ok _ (rand_int r bn.order) e in
      settle n rest drawn e' (field_element_loop-range f rest k r')
    where
      settle :
          (n : ℕ) (rest : Reader)
          → rand_int r bn.order ≡ ok (n, rest)
          → (if is_positive (pos n) then ok (pos n, rest) else field_element_loop f rest)
            ≡ ok (k, r')
          → (field_element_loop f rest ≡ ok (k, r') → IsFieldElement k)
          → IsFieldElement k
      settle zero rest drawn h again = again h
      settle (suc n) rest drawn h again =
          let e : pos (suc n) ≡ k = cc in
          subst IsFieldElement e (omega arith, rand_int-lt r bn.order (suc n) rest drawn)

  -- What a run of the rounds comes to.
  abbrev Ends : Reader → Result (ℤ × Reader) → Type 0
  Ends r run =
      ((n : ℕ) × (rest : Reader) × (run ≡ ok (pos n, rest))
        × (0 < n)
        × (n < bn.order)
        × (length rest < length r))
      ⊎ (run ≡ err read_error)

  field_element_loop-Ends :
      (f : ℕ) (r : Reader) → 1 < bn.order → length r < f → Ends r (field_element_loop f r)
  unfolding field_element_loop
  field_element_loop-Ends zero r big h = absurd (omega arith)
  field_element_loop-Ends (suc f) r big h = elim (rand_int-cases r bn.order (omega arith)) [
    | inr stuck ↦ inr (rw stuck)
    | inl (zero, rest, drawn) ↦
        let shrinks = rand_int-shrinks r bn.order zero rest big drawn in
        elim (field_element_loop-Ends f rest big (omega (arith, shrinks))) [
          | inr run ↦ inr (rw (drawn, run))
          | inl (n, rest', run, above, below, less) ↦
              inl (n, rest', rw (drawn, run), above, below, omega (arith, less, shrinks))
        ]
    | inl (suc n, rest, drawn) ↦ inl (
      suc n,
      rest,
      rw drawn,
      omega arith,
      rand_int-lt r bn.order (suc n) rest drawn,
      rand_int-shrinks r bn.order (suc n) rest big drawn,
    )
  ]

  pub random_field_element-IsFieldElement :
      (r : Reader) (k : ℤ) (r' : Reader) → random_field_element r ≡ ok (k, r') → IsFieldElement k
  unfolding random_field_element
  random_field_element-IsFieldElement r = field_element_loop-range (suc (length r)) r

  -- Where the order is above 1, RandomFieldElement ends on every random source that has finitely
  -- many bytes left, within the fuel: it returns a number above 0 and below the order and has read at
  -- least a byte, or it returns the error of the source, and it never faults.
  pub random_field_element_outcomes :
      (r : Reader)
      → 1 < bn.order
      → ((n : ℕ) × (rest : Reader) × (random_field_element r ≡ ok (pos n, rest))
          × (0 < n)
          × (n < bn.order)
          × (length rest < length r))
        ⊎ (random_field_element r ≡ err read_error)
  unfolding random_field_element
  random_field_element_outcomes r big = field_element_loop-Ends (suc (length r)) r big (omega arith)

  -- A number that is drawn.
  drawn_number :
      (r : Reader) (k : ℤ) (rest : Reader)
      → random_field_element r ≡ ok (k, rest)
      → (n : ℕ) × (k ≡ pos n) × (n % bn.order ≢ 0)
  drawn_number r (pos n) rest drawn =
      let (above, below) = random_field_element-IsFieldElement r (pos n) rest drawn in
      (n, refl, omega (arith, mod-eq_of_lt below))
  drawn_number r (negsuc n) rest drawn =
      absurd (random_field_element-IsFieldElement r (negsuc n) rest drawn)

  -- A run that returns has drawn a number.
  abbrev pub Draws : Reader → Type 0
  Draws r =
      (n : ℕ) × (rest : Reader) × (n % bn.order ≢ 0) × (random_field_element r ≡ ok (pos n, rest))

  pub Draws-of :
      {A : Type 0} (r : Reader) (f : ℤ × Reader → Result A) {x : A}
      → (random_field_element r >>= f) ≡ ok x
      → Draws r
  Draws-of r f e =
      let ((k, rest), drawn, _) = >>=-eq-ok f (random_field_element r) e in
      let (n, k_eq, nz) = drawn_number r k rest drawn in
      (n, rest, nz, drawn ∙ ap (λ (j : ℤ). ok (j, rest)) k_eq)

  abbrev pub residue : Bytes → ℕ
  residue h = set_bytes h % bn.order

  module _ (cr : Crypto) where
    -- The hash after n more rounds.
    abbrev pub rehash : ℕ → Bytes → Bytes
    rehash zero h = h
    rehash (suc n) h = rehash n (cr.sha256 h)

    derive_loop_first :
        (n f : ℕ) (h : Bytes)
        → 0 < bn.order
        → n < f
        → ((j : ℕ) → j < n → residue (rehash j h) ≡ 0)
        → residue (rehash n h) ≢ 0
        → derive_loop cr f h ≡ ok (pos (residue (rehash n h)))
    unfolding derive_loop mod_int emod
    derive_loop_first n zero h big lt zeros nz = absurd (omega arith)
    derive_loop_first zero (suc f) h big lt zeros nz = ground arith
    derive_loop_first (suc n) (suc f) h big lt zeros nz = ground (
      arith,
      zeros 0,
      derive_loop_first n f (cr.sha256 h) big (omega arith) (λ j below. zeros (suc j) (omega arith))
          nz,
    )

    derive_loop-IsFieldElement :
        (f : ℕ) (h : Bytes) (k : ℤ) → 0 < bn.order → derive_loop cr f h ≡ ok k → IsFieldElement k
    unfolding derive_loop mod_int emod
    derive_loop-IsFieldElement zero h k big e = ground arith
    derive_loop-IsFieldElement (suc f) h k big e =
        let (mid, reduced, e') = >>=-eq-ok _ (mod_int (pos (set_bytes h)) (pos bn.order)) e in
        settle (residue h) (mod-lt (set_bytes h) big)
          (subst (λ j. (if is_positive j then ok j else derive_loop cr f (cr.sha256 h)) ≡ ok k)
            (ok-injective (sym reduced ∙ reduces)) e')
          (derive_loop-IsFieldElement f (cr.sha256 h) k big)
      where
        reduces : mod_int (pos (set_bytes h)) (pos bn.order) ≡ ok (pos (residue h))
        reduces = rw ((==-false_iff bn.order 0).1 (omega arith))

        settle :
            (n : ℕ)
            → n < bn.order
            → (if is_positive (pos n) then ok (pos n) else derive_loop cr f (cr.sha256 h)) ≡ ok k
            → (derive_loop cr f (cr.sha256 h) ≡ ok k → IsFieldElement k)
            → IsFieldElement k
        settle zero below e again = again e
        settle (suc n) below e again =
            let same : pos (suc n) ≡ k = cc in subst IsFieldElement same (omega arith, below)

    -- A derived scalar, for any number of rounds.
    pub derive_field_element_from_point-IsFieldElement :
        (rounds : ℕ) (point : Point) (k : ℤ)
        → 0 < bn.order
        → derive_field_element_from_point cr rounds point ≡ ok k
        → IsFieldElement k
    unfolding derive_field_element_from_point
    derive_field_element_from_point-IsFieldElement rounds point k big e =
        derive_loop-IsFieldElement rounds (cr.sha256 (marshal point)) k big e

    -- If the hash of the point, rehashed n times, is the first in the row that is not 0 modulo the
    -- order, any number of rounds above n is enough, and the derived scalar is its residue, which
    -- is above 0 and below the order.
    pub derive_first :
        (n rounds : ℕ) (point : Point)
        → 0 < bn.order
        → n < rounds
        → ((j : ℕ) → j < n → residue (rehash j (cr.sha256 (marshal point))) ≡ 0)
        → residue (rehash n (cr.sha256 (marshal point))) ≢ 0
        → (derive_field_element_from_point cr rounds point
            ≡ ok (pos (residue (rehash n (cr.sha256 (marshal point))))))
          × IsFieldElement (pos (residue (rehash n (cr.sha256 (marshal point)))))
    unfolding derive_field_element_from_point
    derive_first n rounds point big lt zeros nz = (
      derive_loop_first n rounds (cr.sha256 (marshal point)) big lt zeros nz,
      (omega arith, mod-lt (set_bytes (rehash n (cr.sha256 (marshal point)))) big),
    )

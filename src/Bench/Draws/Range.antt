-- ===== src/Bench/Draws/Range.antt =====
-- randFiledElement of bench/proxyot.go: when it ends, and with what.
use mathlib.Core.Path.{subst}
use native.Mathlib.Nat.{mod-lt, mod-eq_of_lt}
use proxyot.Prelude.{
  ℕ, zero, suc, ◌%◌, ◌<◌, ◌≡◌, ◌≢◌, refl, sym, ◌∙◌, arith, if◌then◌else◌, ==-false_iff,
}
use proxyot.Prelude.Result.{ok, >>=-eq-ok, ok-injective}
use proxyot.BigInt.{ℤ, pos, negsuc, is_positive, emod, mod_int, set_bytes}
use proxyot.Bn256.{Bn256}
use proxyot.Curve.Field.{IsFieldElement}
use proxyot.MathRand.{MathRand}
use proxyot.Bench.Draws.{four_words, rand_field_element}

module _ ⦃bn : Bn256⦄ (mr : MathRand) where
  -- The residue of the number that a round draws, and the source after n rounds.
  abbrev pub drawn_residue : mr.Source → ℕ
  drawn_residue s = set_bytes (four_words mr s).0 % bn.order

  abbrev pub source_after : ℕ → mr.Source → mr.Source
  source_after zero s = s
  source_after (suc n) s = source_after n (four_words mr s).1

  reduces :
      (s : mr.Source)
      → 0 < bn.order
      → mod_int (pos (set_bytes (four_words mr s).0)) (pos bn.order) ≡ ok (pos (drawn_residue s))
  unfolding mod_int emod
  reduces s big = rw ((==-false_iff bn.order 0).1 (omega arith))

  -- If the number of the round n, from 0, is the first that is not 0 modulo the order, any number of
  -- rounds above n is enough for randFiledElement: it returns the residue of that number, which is
  -- above 0 and below the order.
  pub rand_field_element_first :
      (n rounds : ℕ) (s : mr.Source)
      → 0 < bn.order
      → n < rounds
      → ((j : ℕ) → j < n → drawn_residue (source_after j s) ≡ 0)
      → drawn_residue (source_after n s) ≢ 0
      → (rand_field_element mr rounds s
          ≡ ok (pos (drawn_residue (source_after n s)), source_after (suc n) s))
        × IsFieldElement (pos (drawn_residue (source_after n s)))
  unfolding rand_field_element mod_int emod
  rand_field_element_first n rounds s big lt zeros nz =
      (loop n rounds s lt zeros nz, (omega arith, mod-lt _ big))
    where
      loop :
          (n f : ℕ) (s : mr.Source)
          → n < f
          → ((j : ℕ) → j < n → drawn_residue (source_after j s) ≡ 0)
          → drawn_residue (source_after n s) ≢ 0
          → rand_field_element mr f s
            ≡ ok (pos (drawn_residue (source_after n s)), source_after (suc n) s)
      loop n zero s lt zeros nz = absurd (omega arith)
      loop zero (suc f) s lt zeros nz = ground arith
      loop (suc n) (suc f) s lt zeros nz = ground (
        arith,
        zeros 0,
        loop n f (four_words mr s).1 (omega arith) (λ j below. zeros (suc j) (omega arith)) nz,
      )

  -- What is drawn, in any number of rounds.
  pub rand_field_element-IsFieldElement :
      (rounds : ℕ) (s s' : mr.Source) (k : ℤ)
      → 0 < bn.order
      → rand_field_element mr rounds s ≡ ok (k, s')
      → IsFieldElement k
  unfolding rand_field_element
  rand_field_element-IsFieldElement zero s s' k big e = ground arith
  rand_field_element-IsFieldElement (suc f) s s' k big e =
      let (mid, reduced, e') =
        >>=-eq-ok _ (mod_int (pos (set_bytes (four_words mr s).0)) (pos bn.order)) e in
      settle (drawn_residue s) (mod-lt _ big)
        (subst
          (λ j.
            (if is_positive j
              then ok (j, (four_words mr s).1)
              else rand_field_element mr f (four_words mr s).1)
            ≡ ok (k, s'))
          (ok-injective (sym reduced ∙ reduces s big)) e')
        (rand_field_element-IsFieldElement f (four_words mr s).1 s' k big)
    where
      settle :
          (n : ℕ)
          → n < bn.order
          → (if is_positive (pos n)
              then ok (pos n, (four_words mr s).1)
              else rand_field_element mr f (four_words mr s).1)
            ≡ ok (k, s')
          → (rand_field_element mr f (four_words mr s).1 ≡ ok (k, s') → IsFieldElement k)
          → IsFieldElement k
      settle zero below e again = again e
      settle (suc n) below e again =
          let same : pos (suc n) ≡ k = cc in subst IsFieldElement same (omega arith, below)

  -- A number that is drawn.
  pub rand_number :
      (rounds : ℕ) (s s' : mr.Source) (k : ℤ)
      → 0 < bn.order
      → rand_field_element mr rounds s ≡ ok (k, s')
      → (n : ℕ) × (k ≡ pos n) × (n % bn.order ≢ 0)
  rand_number rounds s s' (pos n) big e =
      let (above, below) = rand_field_element-IsFieldElement rounds s s' (pos n) big e in
      (n, refl, omega (arith, mod-eq_of_lt below))
  rand_number rounds s s' (negsuc n) big e =
      absurd (rand_field_element-IsFieldElement rounds s s' (negsuc n) big e)

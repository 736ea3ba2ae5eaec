-- ===== src/MathRand/Laws.antt =====
-- What the calls of math/rand return.
use proxyot.Prelude.{ℕ, zero, suc, ◌<◌, ◌≡◌, refl, arith}
use proxyot.Prelude.Result.{ok}
use proxyot.BigInt.{pos}
use proxyot.MathRand.{MathRand, IsMathRand, int63n}

pub int63n_returns :
    (mr : MathRand) (laws : IsMathRand mr) (count : ℕ) (s : mr.Source)
    → 0 < count
    → (t : ℕ) × (s' : mr.Source) × (int63n mr (pos count) s ≡ ok (t, s')) × (t < count)
unfolding int63n
int63n_returns mr laws zero s h = absurd (omega arith)
int63n_returns mr laws (suc n) s h =
    ((mr.below (suc n) s).0, (mr.below (suc n) s).1, refl, laws.below_lt (suc n) s (omega arith))

-- ===== src/MathRand.antt =====
-- math/rand of Go's standard library, as bench/proxyot.go and bench/bench_cs.go use its global source.
pub mod Laws
use proxyot.Prelude.{ℕ, ◌≡◌, ◌<◌, ◌%◌, ◌/◌, Option, some, List, [], ◌∷◌, ◌++◌, length, zero, suc}
use proxyot.Prelude.Result.{Result, ok, panic, bad_argument}
use proxyot.BigInt.{ℤ, pos, negsuc}

pub record MathRand : Type 1 where
  -- What the source holds; each call changes it.
  pub Source : Type 0
  -- rand.Uint64()
  pub uint64 : Source → ℕ × Source
  -- rand.Int63n(n) for an n above 0
  pub below : ℕ → Source → ℕ × Source
  -- rand.Read(buf), by the length of buf; `none` is an error.
  pub read : ℕ → Source → Option (List ℕ × Source)

-- "It always returns len(p) and a nil error." "Int63n returns [...] in the half-open interval [0,n)."
pub record IsMathRand (mr : MathRand) : Type 0 where
  pub read_returns :
      (n : ℕ) (s : mr.Source)
      → (bytes : List ℕ) × (s' : mr.Source) × (mr.read n s ≡ some (bytes, s')) × (length bytes ≡ n)
  pub below_lt : (n : ℕ) (s : mr.Source) → 0 < n → (mr.below n s).0 < n

-- rand.Int63n(n): "It panics if n <= 0."
unfoldable pub int63n : (mr : MathRand) → ℤ → mr.Source → Result (ℕ × mr.Source)
int63n mr (pos (suc n)) s = ok (mr.below (suc n) s)
int63n mr (pos zero) s = panic bad_argument
int63n mr (negsuc n) s = panic bad_argument

-- The bytes that binary.BigEndian.PutUint64 writes, the highest first.
unfoldable pub big_endian : ℕ → ℕ → List ℕ
big_endian zero x = []
big_endian (suc n) x = big_endian n (x / 256) ++ x % 256 ∷ []

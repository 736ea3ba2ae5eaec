-- ===== src/Prelude/Equal.antt =====
-- Equality of byte strings, and Go's `copy`.
use Prim.Native.Nat.{ℕ, zero, suc, ◌+◌, ◌≤◌}
use mathlib.Core.Path.{◌≡◌, refl, ap, ap₂, ◌∙◌}
use mathlib.Core.Logic.{◌≢◌, ◌⊎◌, inl, inr}
use mathlib.Core.Bool.{Bool, true, false, ◌&&◌}
use mathlib.Core.List.{List, [], ◌∷◌, ◌++◌}
use native.Mathlib.Omega.{arith}
use proxyot.Prelude.Tests.{◌==◌, Bool-cases}
use proxyot.Prelude.Lists.{length, take, drop, length-drop, take-append_eq, drop-append_eq}

-- bytes.Equal, hmac.Equal and `==` on arrays
unfoldable pub bytes_equal : List ℕ → List ℕ → Bool
bytes_equal [] [] = true
bytes_equal [] (y ∷ ys) = false
bytes_equal (x ∷ xs) [] = false
bytes_equal (x ∷ xs) (y ∷ ys) = x == y && bytes_equal xs ys

-- copy(dst, src), as the value of dst afterwards, and copy(dst[n:], src)
abbrev pub copy : List ℕ → List ℕ → List ℕ
copy dst src = take (length dst) src ++ drop (length src) dst

abbrev pub copy_at : ℕ → List ℕ → List ℕ → List ℕ
copy_at n dst src = take n dst ++ copy (drop n dst) src

pub bytes_equal_refl : (xs : List ℕ) → bytes_equal xs xs ≡ true
unfolding bytes_equal
bytes_equal_refl [] = refl
bytes_equal_refl (x ∷ xs) = ground (arith, bytes_equal_refl xs)

pub bytes_equal→eq : (xs ys : List ℕ) → bytes_equal xs ys ≡ true → xs ≡ ys
unfolding bytes_equal
bytes_equal→eq [] [] e = refl
bytes_equal→eq [] (y ∷ ys) e = cc
bytes_equal→eq (x ∷ xs) [] e = cc
bytes_equal→eq (x ∷ xs) (y ∷ ys) e = ground (arith, bytes_equal→eq xs ys)

pub bytes_equal-false : (xs ys : List ℕ) → xs ≢ ys → bytes_equal xs ys ≡ false
bytes_equal-false xs ys h = elim (Bool-cases (bytes_equal xs ys)) [
  | inl e ↦ absurd (h (bytes_equal→eq xs ys e))
  | inr e ↦ e
]

pub bytes-cases : (xs ys : List ℕ) → (xs ≡ ys) ⊎ (xs ≢ ys)
bytes-cases xs ys = elim (Bool-cases (bytes_equal xs ys)) [
  | inl e ↦ inl (bytes_equal→eq xs ys e)
  | inr e ↦ inr (λ p. apart p e)
]
  where
    apart : xs ≡ ys → bytes_equal xs ys ≡ false → ⊥
    apart p e = cc (ap (bytes_equal xs) p, bytes_equal_refl xs)

-- A copy into as many bytes replaces them all.
pub copy-whole : (dst src : List ℕ) → length src ≡ length dst → copy dst src ≡ src
copy-whole [] [] h = refl
copy-whole [] (x ∷ src) h = absurd (omega arith)
copy-whole (d ∷ dst) [] h = absurd (omega arith)
copy-whole (d ∷ dst) (x ∷ src) h = ap (λ (r : List ℕ). x ∷ r) (copy-whole dst src (omega arith))

take-all : (n : ℕ) (xs : List ℕ) → length xs ≤ n → take n xs ≡ xs
take-all n [] h = take-nil n
  where
    take-nil : (k : ℕ) → take {A = ℕ} k [] ≡ []
    take-nil zero = refl
    take-nil (suc k) = refl
take-all zero (x ∷ xs) h = absurd (omega arith)
take-all (suc n) (x ∷ xs) h = ap (λ (r : List ℕ). x ∷ r) (take-all n xs (omega arith))

-- Two copies one behind the other into just enough bytes leave nothing of those.
pub copy_at-copy :
    (blank a b : List ℕ)
    → length blank ≡ length a + length b
    → copy_at (length a) (copy blank a) b ≡ a ++ b
copy_at-copy blank a b h =
    ap (λ (s : List ℕ). take (length a) (s ++ rest) ++ copy (drop (length a) (s ++ rest)) b)
      (take-all (length blank) a (omega arith))
    ∙ ap₂ (λ (s t : List ℕ). s ++ copy t b) (take-append_eq (length a) a rest refl)
        (drop-append_eq (length a) a rest refl)
    ∙ ap (λ (s : List ℕ). a ++ s) (copy-whole rest b (omega (arith, length-drop (length a) blank)))
  where
    rest : List ℕ
    rest = drop (length a) blank

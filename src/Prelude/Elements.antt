-- ===== src/Prelude/Elements.antt =====
-- The elements of the lists that appending, cutting, filling and copying make.
use Prim.Native.Nat.{ℕ, zero, suc, ◌+◌, ◌-◌, ◌≤◌}
use mathlib.Core.Path.{◌≡◌, refl, ap, ap₂, ◌∙◌}
use mathlib.Core.List.{List, [], ◌∷◌, ◌++◌}
use mathlib.Core.Option.{none, some}
use native.Mathlib.Omega.{arith}
use proxyot.Prelude.Tests.{ltb, if◌then◌else◌}
use proxyot.Prelude.Lists.{
  length, get_elem?, take, drop, replicate, length-append, length-take, length-drop,
}
use proxyot.Prelude.Equal.{copy, copy_at}

module _ {ℓ} {A : Type ℓ} where
  pub get_elem?-none : (xs : List A) (i : ℕ) → length xs ≤ i → get_elem? xs i ≡ none
  get_elem?-none [] i h = refl
  get_elem?-none (x ∷ xs) zero h = absurd (omega arith)
  get_elem?-none (x ∷ xs) (suc i) h = get_elem?-none xs i (omega arith)

  pub get_elem?-append :
      (xs ys : List A) (i : ℕ)
      → get_elem? (xs ++ ys) i
        ≡ (if ltb i (length xs) then get_elem? xs i else get_elem? ys (i - length xs))
  get_elem?-append [] ys i = ap (get_elem? ys) (let e : i ≡ i - 0 = omega arith in e) ∙ ground arith
  get_elem?-append (x ∷ xs) ys zero = ground arith
  get_elem?-append (x ∷ xs) ys (suc i) = get_elem?-append xs ys i ∙ ground arith

  pub get_elem?-take :
      (n : ℕ) (xs : List A) (i : ℕ)
      → get_elem? (take n xs) i ≡ (if ltb i n then get_elem? xs i else none)
  get_elem?-take zero xs i = ground arith
  get_elem?-take (suc n) [] i = ground arith
  get_elem?-take (suc n) (x ∷ xs) zero = ground arith
  get_elem?-take (suc n) (x ∷ xs) (suc i) = get_elem?-take n xs i ∙ ground arith

  pub get_elem?-drop :
      (n : ℕ) (xs : List A) (i : ℕ) → get_elem? (drop n xs) i ≡ get_elem? xs (n + i)
  get_elem?-drop zero xs i = ap (get_elem? xs) (omega arith)
  get_elem?-drop (suc n) [] i = refl
  get_elem?-drop (suc n) (x ∷ xs) i =
      get_elem?-drop n xs i
      ∙ ap (get_elem? (x ∷ xs)) (let e : suc (n + i) ≡ suc n + i = omega arith in e)

  pub get_elem?-replicate :
      (n : ℕ) (a : A) (i : ℕ) → get_elem? (replicate n a) i ≡ (if ltb i n then some a else none)
  get_elem?-replicate zero a i = ground arith
  get_elem?-replicate (suc n) a zero = ground arith
  get_elem?-replicate (suc n) a (suc i) = get_elem?-replicate n a i ∙ ground arith

  -- Lists with the same elements at every index are equal.
  pub get_elem?-ext : (xs ys : List A) → ((i : ℕ) → get_elem? xs i ≡ get_elem? ys i) → xs ≡ ys
  get_elem?-ext [] [] h = refl
  get_elem?-ext [] (y ∷ ys) h = cc (h 0)
  get_elem?-ext (x ∷ xs) [] h = cc (h 0)
  get_elem?-ext (x ∷ xs) (y ∷ ys) h = ap₂ ◌∷◌ (cc (h 0)) (get_elem?-ext xs ys (λ i. h (suc i)))

pub length-copy : (dst src : List ℕ) → length (copy dst src) ≡ length dst
length-copy dst src = omega (
  arith,
  length-append (take (length dst) src) (drop (length src) dst),
  length-take (length dst) src,
  length-drop (length src) dst,
)

pub get_elem?-copy :
    (dst src : List ℕ) (i : ℕ)
    → get_elem? (copy dst src) i ≡ (
        if ltb i (length dst)
        then (if ltb i (length src) then get_elem? src i else get_elem? dst i)
        else none)
get_elem?-copy dst src i =
    let front = take (length dst) src in
    get_elem?-append front (drop (length src) dst) i
    ∙ ground (
      arith,
      length-take (length dst) src,
      get_elem?-take (length dst) src i,
      get_elem?-drop (length src) dst (i - length front),
      get_elem?-none dst (length src + (i - length front)),
    )

-- The bytes of a copy into a file at an offset within it.
pub get_elem?-copy_at :
    (n : ℕ) (dst src : List ℕ) (i : ℕ)
    → n ≤ length dst
    → get_elem? (copy_at n dst src) i ≡ (
        if ltb i n
        then get_elem? dst i
        else if ltb i (length dst)
        then (if ltb (i - n) (length src) then get_elem? src (i - n) else get_elem? dst i)
        else none)
get_elem?-copy_at n dst src i h =
    let front = take n dst in
    get_elem?-append front (copy (drop n dst) src) i
    ∙ ground (
      arith,
      length-take n dst,
      length-drop n dst,
      get_elem?-take n dst i,
      get_elem?-copy (drop n dst) src (i - length front),
      get_elem?-drop n dst (i - n),
    )

pub length-copy_at : (n : ℕ) (dst src : List ℕ) → length (copy_at n dst src) ≡ length dst
length-copy_at n dst src = omega (
  arith,
  length-append (take n dst) (copy (drop n dst) src),
  length-take n dst,
  length-drop n dst,
  length-copy (drop n dst) src,
)

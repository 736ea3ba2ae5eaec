-- ===== src/Bench/Loops.antt =====
-- A loop over a slice whose calls all return.
use proxyot.Prelude.{
  ℕ, zero, suc, ◌≤◌, ◌≡◌, refl, sym, ap, ap₂, ◌∙◌, ◌*◌, arith, Option, some, none, List, [], ◌∷◌,
  map, All, length, get_elem?,
}
use proxyot.Prelude.Result.{Result, ok}
use proxyot.Bn256.{Bn256, IsPairing}
use proxyot.Curve.{Point}
use proxyot.Curve.Calculus.{mult1, mult2, mult_t}
use proxyot.Pre.{re_encrypt}
use proxyot.Pre.Delegation.{re_encrypt_mult}
use proxyot.Bench.{fill, re_encrypt_loop}

none-ne_some {ℓ} : {A : Type ℓ} {x : A} → ¬ (none ≡ some x)
none-ne_some e = cc

some_injective {ℓ} : {A : Type ℓ} {x y : A} → some x ≡ some y → x ≡ y
some_injective e = cc

-- A call returns a value with a property.
abbrev pub Returns {ℓ κ μ} :
    {A : Type ℓ} {B : Type κ} → (A → Result B) → (B → Type μ) → A → Type (κ ⊔ μ)
Returns f Q x = (y : _) × (f x ≡ ok y) × Q y

-- The loop then returns a value for each element, in its place.
pub fill-Returns {ℓ κ μ} :
    {A : Type ℓ} {B : Type κ} (f : A → Result B) (Q : B → Type μ) (xs : List A)
    → All (Returns f Q) xs
    → (ys : List B) × (fill f xs ≡ ok ys)
      × (length ys ≡ length xs)
      × All Q ys
      × ((i : ℕ) (x : A)
          → get_elem? xs i ≡ some x
          → (y : B) × (get_elem? ys i ≡ some y) × (f x ≡ ok y))
unfolding fill
fill-Returns f Q [] h = ([], refl, refl, tt, λ i x e. absurd (none-ne_some e))
fill-Returns {A = A} {B = B} f Q (x ∷ xs) ((y, e, q), h) =
    let (ys, run, len, qs, place) = fill-Returns f Q xs h in
    (y ∷ ys, rw (e, run), ap suc len, (q, qs), at ys place)
  where
    at :
        (ys : List B)
        → ((i : ℕ) (z : A)
            → get_elem? xs i ≡ some z
            → (w : B) × (get_elem? ys i ≡ some w) × (f z ≡ ok w))
        → (i : ℕ) (z : A) → get_elem? (x ∷ xs) i ≡ some z
        → (w : B) × (get_elem? (y ∷ ys) i ≡ some w) × (f z ≡ ok w)
    at ys place zero z e' = (y, refl, ap f (sym (some_injective e')) ∙ e)
    at ys place (suc i) z e' = place i z e'

module _ ⦃bn : Bn256⦄ where
  -- Points of G1 and re-keys of G2.
  abbrev pub InG1 : Point → Type 0
  InG1 p = (m : ℕ) × (p ≡ mult1 m)

  abbrev pub InG2 : Point → Type 0
  InG2 q = (n : ℕ) × (q ≡ mult2 n)

  module _ (laws : IsPairing bn) where
    pub re_encrypt_loop_returns :
        (points ks : List Point)
        → All InG1 points
        → All InG2 ks
        → length ks ≤ length points
        → (qs : List (Option Point)) × (re_encrypt_loop points ks ≡ ok qs)
          × ((i : ℕ) (p k : Point)
              → get_elem? points i ≡ some p
              → get_elem? ks i ≡ some k
              → (q : Point) × (get_elem? qs i ≡ some (some q)) × (re_encrypt p k ≡ ok q))
    unfolding re_encrypt_loop
    re_encrypt_loop_returns points [] hp hk h =
        (map (λ _. none) points, refl, λ i p k e e'. absurd (none-ne_some e'))
    re_encrypt_loop_returns [] (k ∷ ks) hp hk h = absurd (omega arith)
    re_encrypt_loop_returns (p ∷ points) (k ∷ ks) ((m, ep), hp) ((n, ek), hk) h =
        let (qs, run, place) = re_encrypt_loop_returns points ks hp hk (omega arith) in
        (some (mult_t (m * n)) ∷ qs, rw (one, run), at qs place)
      where
        one : re_encrypt p k ≡ ok (mult_t (m * n))
        one = ap₂ re_encrypt ep ek ∙ re_encrypt_mult laws m n

        at :
            (qs : List (Option Point))
            → ((i : ℕ) (p k : Point)
                → get_elem? points i ≡ some p
                → get_elem? ks i ≡ some k
                → (q : Point) × (get_elem? qs i ≡ some (some q)) × (re_encrypt p k ≡ ok q))
            → (i : ℕ) (p' k' : Point) → get_elem? (p ∷ points) i ≡ some p'
            → get_elem? (k ∷ ks) i ≡ some k'
            → (q : Point) × (get_elem? (some (mult_t (m * n)) ∷ qs) i ≡ some (some q))
              × (re_encrypt p' k' ≡ ok q)
        at qs place zero p' k' e e' = (
          mult_t (m * n),
          refl,
          ap₂ re_encrypt (sym (some_injective e)) (sym (some_injective e')) ∙ one,
        )
        at qs place (suc i) p' k' e e' = place i p' k' e e'

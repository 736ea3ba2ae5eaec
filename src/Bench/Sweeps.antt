-- ===== src/Bench/Sweeps.antt =====
-- The loops of bench/bench.go and bench/network.go over sizes and counts, which are int64 values. Nothing
-- in the code makes them end: a loop that never passes its bound is `diverged` for every fuel.
pub mod Values
pub mod Nested
use proxyot.Prelude.{ℕ, zero, suc, leb, Bool, true, false, List, [], ◌∷◌, ◌++◌, if◌then◌else◌}
use proxyot.Prelude.Result.{Result, ok, diverged, ◌>>=◌}
use proxyot.BigInt.{ℤ, pos, negsuc, ◌+ℤ◌, ◌*ℤ◌}
use proxyot.Fileobj.{to_int64}

-- `a <= b`
abbrev pub at_most : ℤ → ℤ → Bool
at_most (pos a) (pos b) = leb a b
at_most (pos a) (negsuc b) = false
at_most (negsuc a) (pos b) = true
at_most (negsuc a) (negsuc b) = leb b a

-- `x *= ratio` and `x += step`
unfoldable pub times : ℤ → ℤ → ℤ
unfolding to_int64 ◌*ℤ◌
times ratio x = to_int64 (x *ℤ ratio)

unfoldable pub plus : ℤ → ℤ → ℤ
unfolding to_int64 ◌+ℤ◌
plus step x = to_int64 (x +ℤ step)

-- `for x := ...; x <= max; x = next(x)`, over what the body changes
unfoldable pub for_loop {ℓ} : {S : Type ℓ} → (ℤ → ℤ) → ℤ → (ℤ → S → Result S) → ℕ → ℤ → S → Result S
for_loop next max body zero x s = diverged
for_loop next max body (suc f) x s =
    let again = body x s >>= for_loop next max body f (next x) in
    if at_most x max then again else ok s

-- The loop that collects the values
unfoldable pub values : (ℤ → ℤ) → ℤ → ℕ → ℤ → Result (List ℤ)
unfolding for_loop
values next max fuel x = for_loop next max (λ v vs. ok (vs ++ v ∷ [])) fuel x []

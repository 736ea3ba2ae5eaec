-- ===== src/Fileobj/Count.antt =====
-- The block count of fileobj/file.go and fileobj/file_mem.go.
use native.Mathlib.Nat
use native.Mathlib.Nat.{div-add-mod, mod-lt, mul_comm}
use proxyot.Prelude.{
  ℕ, ◌+◌, ◌*◌, ◌/◌, ◌%◌, ◌≤◌, ◌<◌, ltb, leb, ◌≡◌, inl, inr, arith, ltb_iff, ltb-false_iff, leb_iff,
  leb-false_iff, ==-false_iff, Bool-cases,
}
use proxyot.Prelude.Result.{ok}
use proxyot.Fileobj.{count_blocks}

-- The number of blocks is the quotient rounded up.
pub count_blocks_lem :
    (n b : ℕ) → 0 < b → (c : ℕ) × (count_blocks n b ≡ ok c) × (n ≤ b * c) × (b * c < n + b)
unfolding count_blocks
count_blocks_lem n b h = elim (Bool-cases (ltb 0 (n % b))) [
  | inl e ↦ (
    n / b + 1,
    rw ((==-false_iff b 0).1 (omega arith), e),
    omega (arith, div-add-mod n b, mod-lt n h),
    omega (arith, div-add-mod n b, (ltb_iff 0 (n % b)).0 e),
  )
  | inr e ↦ (
    n / b,
    rw ((==-false_iff b 0).1 (omega arith), e),
    omega (arith, div-add-mod n b, (ltb-false_iff 0 (n % b)).0 e),
    omega (arith, div-add-mod n b),
  )
]

count_le : (n b c d : ℕ) → b * c < n + b → n ≤ b * d → c ≤ d
count_le n b c d tight covers = elim (Bool-cases (leb c d)) [
  | inl e ↦ (leb_iff c d).0 e
  | inr e ↦ absurd (omega (arith, Nat.mul-le-mul_left b ((leb-false_iff c d).0 e), Nat.mul-suc b d))
]

pub count_unique : (n b c d : ℕ) → n ≤ b * c → b * c < n + b → n ≤ b * d → b * d < n + b → c ≡ d
count_unique n b c d hc tc hd td = omega (arith, count_le n b c d tc hd, count_le n b d c td hc)

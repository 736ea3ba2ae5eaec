-- ===== src/Fileobj/Mem/Blocks.antt =====
-- The blocks of a file's bytes, and what a copy to one of them does to it and to the others.
use native.Mathlib.Nat
use native.Mathlib.Nat.{div-add-mod, mod-lt, mul_comm}
use proxyot.Prelude.{
  ℕ, suc, ◌+◌, ◌-◌, ◌*◌, ◌≤◌, ltb, ◌≡◌, ◌≢◌, ◌⊎◌, inl, inr, ap, ◌∙◌, arith, some, none, length,
  get_elem?, take, drop, replicate, if◌then◌else◌, ltb_iff, ltb-false_iff, Bool-cases,
  length-replicate, length-drop, length-take,
}
use proxyot.Prelude.Equal.{copy, copy_at}
use proxyot.Prelude.Elements.{
  get_elem?-ext, get_elem?-copy, get_elem?-copy_at, get_elem?-drop, get_elem?-replicate,
  length-copy_at, get_elem?-take, get_elem?-none,
}
use proxyot.Crypto.{Bytes}

-- The block of the index k: its bytes in the file, filled up with zeros behind the end.
abbrev pub block_of : Bytes → ℕ → ℕ → Bytes
block_of content size k = copy (replicate size 0) (drop (size * k) content)

-- What a written block keeps of itself: the bytes that fall inside the file, then zeros.
abbrev pub kept : Bytes → ℕ → ℕ → Bytes → Bytes
kept content size k block = copy (replicate size 0) (take (length content - size * k) block)

block_at :
    (c : Bytes) (size k i : ℕ)
    → get_elem? (block_of c size k) i ≡ (
        if ltb i size
        then (if ltb (size * k + i) (length c) then get_elem? c (size * k + i) else some 0)
        else none)
block_at c size k i =
    get_elem?-copy (replicate size 0) (drop (size * k) c) i
    ∙ ground (
      arith,
      length-replicate {A = ℕ} size 0,
      length-drop (size * k) c,
      get_elem?-drop (size * k) c i,
      get_elem?-replicate {A = ℕ} size 0 i,
    )

kept_at :
    (c : Bytes) (size k : ℕ) (block : Bytes) (i : ℕ)
    → length block ≡ size
    → get_elem? (kept c size k block) i ≡ (
        if ltb i size
        then (if ltb i (length c - size * k) then get_elem? block i else some 0)
        else none)
kept_at c size k block i h =
    get_elem?-copy (replicate size 0) (take (length c - size * k) block) i
    ∙ ground (
      arith,
      length-replicate {A = ℕ} size 0,
      length-take (length c - size * k) block,
      get_elem?-take (length c - size * k) block i,
      get_elem?-replicate {A = ℕ} size 0 i,
    )

-- The block that is written, and another one.
pub block_of-copy_at_self :
    (c : Bytes) (size k : ℕ) (block : Bytes)
    → length block ≡ size
    → size * k ≤ length c
    → block_of (copy_at (size * k) c block) size k ≡ kept c size k block
block_of-copy_at_self c size k block h inside = get_elem?-ext _ _ λ i.
    block_at (copy_at (size * k) c block) size k i
    ∙ ground (
      arith,
      length-copy_at (size * k) c block,
      get_elem?-copy_at (size * k) c block (size * k + i) inside,
      ap (get_elem? block) (let e : size * k + i - size * k ≡ i = omega arith in e),
      kept_at c size k block i h,
    )

apart : (size j k : ℕ) → j ≢ k → (size * j + size ≤ size * k) ⊎ (size * k + size ≤ size * j)
apart size j k ne = elim (Bool-cases (ltb j k)) [
  | inl e ↦ inl (omega (arith, Nat.mul-le-mul_left size ((ltb_iff j k).0 e), Nat.mul-suc size j))
  | inr e ↦ inr (above (omega (arith, (ltb-false_iff j k).0 e)))
]
  where
    above : suc k ≤ j → size * k + size ≤ size * j
    above h = omega (arith, Nat.mul-le-mul_left size h, Nat.mul-suc size k)

pub block_of-copy_at_ne :
    (c : Bytes) (size j k : ℕ) (block : Bytes)
    → length block ≡ size
    → size * k ≤ length c
    → j ≢ k
    → block_of (copy_at (size * k) c block) size j ≡ block_of c size j
block_of-copy_at_ne c size j k block h inside ne = get_elem?-ext _ _ λ i.
    block_at (copy_at (size * k) c block) size j i
    ∙ ground (
      arith,
      apart size j k ne,
      length-copy_at (size * k) c block,
      get_elem?-copy_at (size * k) c block (size * j + i) inside,
      block_at c size j i,
    )

-- A block that lies inside the file is kept whole.
pub kept-whole :
    (c : Bytes) (size k : ℕ) (block : Bytes)
    → length block ≡ size
    → size * k + size ≤ length c
    → kept c size k block ≡ block
kept-whole c size k block h inside =
    get_elem?-ext _ _ λ i. kept_at c size k block i h ∙ ground (arith, get_elem?-none block i)

-- A block inside the file has no zeros added.
pub block_inside :
    (c : Bytes) (size k : ℕ)
    → size * k + size ≤ length c
    → block_of c size k ≡ take size (drop (size * k) c)
block_inside c size k inside = get_elem?-ext _ _ λ i.
    block_at c size k i
    ∙ ground (arith, get_elem?-take size (drop (size * k) c) i, get_elem?-drop (size * k) c i)

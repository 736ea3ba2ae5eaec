-- ===== src/Fileobj/Mem/Store.antt =====
-- A file in memory as an array of blocks: what its operations return.
use native.Mathlib.Nat
use native.Mathlib.Nat.{div-add-mod, mod-lt, mul_comm}
use proxyot.Prelude.{
  ◌⊎◌, eq-cases, ℕ, zero, suc, ◌+◌, ◌-◌, ◌*◌, ◌%◌, ◌^◌, ◌≤◌, ◌<◌, leb, ◌≡◌, ◌≢◌, inl, inr, refl, ap,
  ◌∙◌, arith, length, ltb_iff, ltb-false_iff, leb_iff, leb-false_iff, ==_iff, ==-false_iff,
  Bool-cases,
}
use proxyot.Prelude.Equal.{copy_at}
use proxyot.Prelude.Elements.{length-copy_at}
use proxyot.Prelude.Result.{
  ok, err, panic, out_of_block_index, wrong_block_size, index_out_of_range,
}
use proxyot.BigInt.{pos, negsuc, neg_ℕ, ◌*ℤ◌}
use proxyot.Crypto.{Bytes}
use proxyot.Fileobj.{to_int64, of_bits}
use proxyot.Fileobj.Mem.{MemFileObj, new, get_block, set_block}
use proxyot.Fileobj.Count.{count_blocks_lem, count_unique}
use proxyot.Fileobj.Mem.Blocks.{block_of}

-- A file whose fields agree with its content, and whose size is an int64.
pub record IsFile (obj : MemFileObj) : Type 0 where
  pub positive : 0 < obj.block_size
  pub sized : obj.file_size ≡ length obj.content
  pub fits : length obj.content < 2 ^ 63
  pub covers : length obj.content ≤ obj.block_size * obj.block_count
  pub tight : obj.block_size * obj.block_count < length obj.content + obj.block_size

-- NewMemFileObj returns such a file.
pub new-IsFile :
    (bytes : Bytes) (b : ℕ)
    → 0 < b
    → length bytes < 2 ^ 63
    → (obj : MemFileObj) × (new bytes b ≡ ok obj) × IsFile obj
unfolding new
new-IsFile bytes b h fits =
    let (c, e, covers, tight) = count_blocks_lem (length bytes) b h in
    (
      record { content = bytes; file_size = length bytes; block_size = b; block_count = c },
      rw e,
      record { positive = h; sized = refl; fits = fits; covers = covers; tight = tight },
    )

-- A product from -2^63 up to -1 is itself.
negative_wrap : (p : ℕ) → 0 < p → p ≤ 2 ^ 63 → (m : ℕ) × (to_int64 (neg_ℕ p) ≡ negsuc m)
unfolding to_int64
negative_wrap zero h small = absurd (omega arith)
negative_wrap (suc q) h small =
    let w = 2 ^ 64 - 1 - q % 2 ^ 64 in
    (2 ^ 64 - 1 - w, rw ((ltb-false_iff w (2 ^ 63)).1 (omega arith)))

module _ (obj : MemFileObj) (file : IsFile obj) where
  -- An index below the count leads to an offset inside the file.
  pub offset-lt : (k : ℕ) → k < obj.block_count → obj.block_size * k < length obj.content
  offset-lt k h =
      omega (arith, file.tight, Nat.mul-le-mul_left obj.block_size h, Nat.mul-suc obj.block_size k)

  -- It does not wrap around.
  pub offset_exact :
      (k : ℕ)
      → k < obj.block_count
      → to_int64 (pos obj.block_size *ℤ pos k) ≡ pos (obj.block_size * k)
  unfolding to_int64 ◌*ℤ◌
  offset_exact k h =
      ap of_bits unwrapped
      ∙ rw ((ltb_iff (obj.block_size * k) (2 ^ 63)).1 (omega (arith, offset-lt k h, file.fits)))
    where
      unwrapped : obj.block_size * k % 2 ^ 64 ≡ obj.block_size * k
      unwrapped = omega (arith, offset-lt k h, file.fits)

  pub get_block_in :
      (k : ℕ)
      → k < obj.block_count
      → get_block obj (pos k) ≡ ok (block_of obj.content obj.block_size k)
  unfolding get_block
  get_block_in k h = rw (
    (leb-false_iff obj.block_count k).1 h,
    offset_exact k h,
    (leb_iff (obj.block_size * k) (length obj.content)).1 (omega (arith, offset-lt k h)),
  )

  pub get_block_out : (k : ℕ) → obj.block_count ≤ k → get_block obj (pos k) ≡ err out_of_block_index
  unfolding get_block
  get_block_out k h = rw ((leb_iff obj.block_count k).1 h)

  set_block_out :
      (k : ℕ) (block : Bytes)
      → obj.block_count ≤ k
      → set_block obj (pos k) block ≡ err out_of_block_index
  unfolding set_block
  set_block_out k block h = rw ((leb_iff obj.block_count k).1 h)

  set_block_size :
      (k : ℕ) (block : Bytes)
      → k < obj.block_count
      → length block ≢ obj.block_size
      → set_block obj (pos k) block ≡ err wrong_block_size
  unfolding set_block
  set_block_size k block h ne =
      rw ((leb-false_iff obj.block_count k).1 h, (==-false_iff (length block) obj.block_size).1 ne)

  negative_offset :
      (n : ℕ)
      → obj.block_size * suc n ≤ 2 ^ 63
      → (m : ℕ) × (to_int64 (pos obj.block_size *ℤ negsuc n) ≡ negsuc m)
  unfolding to_int64 ◌*ℤ◌
  negative_offset n h =
      negative_wrap (obj.block_size * suc n) (Nat.mul-pos file.positive (omega arith)) h

  -- The file after a block is written.
  abbrev pub written : ℕ → Bytes → MemFileObj
  written k block = record obj {
    content = copy_at (obj.block_size * k) obj.content block;
    file_size = length (copy_at (obj.block_size * k) obj.content block);
  }

  pub written-IsFile : (k : ℕ) (block : Bytes) → IsFile (written k block)
  written-IsFile k block =
      let same = length-copy_at (obj.block_size * k) obj.content block in
      record {
        positive = file.positive;
        sized = refl;
        fits = omega (arith, same, file.fits);
        covers = omega (arith, same, file.covers);
        tight = omega (arith, same, file.tight);
      }

  pub set_block_in :
      (k : ℕ) (block : Bytes)
      → k < obj.block_count
      → length block ≡ obj.block_size
      → set_block obj (pos k) block ≡ ok (written k block)
  unfolding set_block
  set_block_in k block h e =
      let (c, counted, covers, tight) =
        count_blocks_lem (length (copy_at (obj.block_size * k) obj.content block)) obj.block_size
          file.positive in
      rw
        (
          (leb-false_iff obj.block_count k).1 h,
          (==_iff (length block) obj.block_size).1 e,
          offset_exact k h,
          (leb_iff (obj.block_size * k) (length obj.content)).1 (omega (arith, offset-lt k h)),
          counted,
        )
        (ap
          (λ (n : ℕ). ok (record {
            content = copy_at (obj.block_size * k) obj.content block;
            file_size = length (copy_at (obj.block_size * k) obj.content block);
            block_size = obj.block_size;
            block_count = n;
          }))
          (same_count c covers tight))
    where
      same : length (copy_at (obj.block_size * k) obj.content block) ≡ length obj.content
      same = length-copy_at (obj.block_size * k) obj.content block

      same_count :
          (c : ℕ)
          → length (copy_at (obj.block_size * k) obj.content block) ≤ obj.block_size * c
          → obj.block_size * c
            < length (copy_at (obj.block_size * k) obj.content block) + obj.block_size
          → c ≡ obj.block_count
      same_count c covers tight =
          count_unique (length obj.content) obj.block_size c obj.block_count
            (omega (arith, same, covers)) (omega (arith, same, tight)) file.covers file.tight

  -- GetBlock and SetBlock at an index that is not below 0: behind the last block both are the error
  -- of the index. Before it, GetBlock reads the block, and SetBlock is the error of the size for data
  -- of another length than a block's.
  pub get_block_outcomes :
      (k : ℕ) (block : Bytes)
      → ((obj.block_count ≤ k)
          × (get_block obj (pos k) ≡ err out_of_block_index)
          × (set_block obj (pos k) block ≡ err out_of_block_index))
        ⊎ ((k < obj.block_count)
            × (get_block obj (pos k) ≡ ok (block_of obj.content obj.block_size k))
            × ((length block ≡ obj.block_size)
                ⊎ ((length block ≢ obj.block_size)
                    × (set_block obj (pos k) block ≡ err wrong_block_size))))
  get_block_outcomes k block = elim (Bool-cases (leb obj.block_count k)) [
    | inl out ↦
        let h = (leb_iff obj.block_count k).0 out in
        inl (h, get_block_out k h, set_block_out k block h)
    | inr inside ↦
        let h = (leb-false_iff obj.block_count k).0 inside in
        inr (
          h,
          get_block_in k h,
          elim (eq-cases (length block) obj.block_size) [
            | inl e ↦ inl e
            | inr ne ↦ inr (ne, set_block_size k block h ne)
          ],
        )
  ]

  -- A negative index, at least where the offset does not wrap around, is no error but a fault.
  pub get_block_negative :
      (n : ℕ)
      → obj.block_size * suc n ≤ 2 ^ 63
      → get_block obj (negsuc n) ≡ panic index_out_of_range
  unfolding get_block
  get_block_negative n h = let (m, e) = negative_offset n h in rw e

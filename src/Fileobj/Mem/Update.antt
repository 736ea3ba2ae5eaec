-- ===== src/Fileobj/Mem/Update.antt =====
-- What is written to a block of a file in memory is read back from it, and the other blocks stay.
use proxyot.Prelude.{
  ◌⊎◌, if◌then◌else◌, ◌==◌, ℕ, ◌+◌, ◌*◌, ◌≤◌, ◌<◌, leb, ◌≡◌, ◌≢◌, inl, inr, refl, sym, ap, ◌∙◌,
  arith, length, leb_iff, leb-false_iff, ==_iff, ==-false_iff, Bool-cases,
}
use proxyot.Prelude.Elements.{length-copy_at}
use proxyot.Prelude.Result.{ok}
use proxyot.BigInt.{pos}
use proxyot.Crypto.{Bytes}
use proxyot.Fileobj.Mem.{MemFileObj, get_block, set_block}
use proxyot.Fileobj.Mem.Blocks.{kept, kept-whole, block_of-copy_at_self, block_of-copy_at_ne}
use proxyot.Fileobj.Mem.Store.{
  IsFile, offset-lt, get_block_in, get_block_out, set_block_in, written, written-IsFile,
}

-- A block of the right size, written at an index below the count: SetBlock returns a file that is
-- well formed again, with as many bytes and blocks. GetBlock then reads at this index the block, cut
-- off where the file ends and filled up with zeros, and at every other index what it read before.
-- A block that lies inside the file is not cut off.
pub get_block-set_block :
    (obj : MemFileObj) (k : ℕ) (block : Bytes)
    → IsFile obj
    → k < obj.block_count
    → length block ≡ obj.block_size
    → (obj' : MemFileObj) × (set_block obj (pos k) block ≡ ok obj')
      × IsFile obj'
      × (length obj'.content ≡ length obj.content)
      × (obj'.block_count ≡ obj.block_count)
      × ((j : ℕ)
          → get_block obj' (pos j) ≡ (
              if j == k
              then ok (kept obj.content obj.block_size k block)
              else get_block obj (pos j)))
      × ((kept obj.content obj.block_size k block ≡ block)
          ⊎ (length obj.content < obj.block_size * k + obj.block_size))
get_block-set_block obj k block file h e = (
  obj',
  set_block_in obj file k block h e,
  file',
  length-copy_at (obj.block_size * k) obj.content block,
  refl,
  reads,
  elim (Bool-cases (leb (obj.block_size * k + obj.block_size) (length obj.content))) [
    | inl inside ↦ inl (
        kept-whole obj.content obj.block_size k block e ((leb_iff _ (length obj.content)).0 inside))
    | inr cut ↦ inr ((leb-false_iff _ (length obj.content)).0 cut)
  ],
)
  where
    obj' : MemFileObj
    obj' = written obj file k block

    file' : IsFile obj'
    file' = written-IsFile obj file k block

    low : obj.block_size * k ≤ length obj.content
    low = omega (arith, offset-lt obj file k h)

    read_back : get_block obj' (pos k) ≡ ok (kept obj.content obj.block_size k block)
    read_back =
        get_block_in obj' file' k h
        ∙ ap (λ (b : Bytes). ok b) (block_of-copy_at_self obj.content obj.block_size k block e low)

    others : (j : ℕ) → j ≢ k → get_block obj' (pos j) ≡ get_block obj (pos j)
    others j ne = elim (Bool-cases (leb obj.block_count j)) [
      | inl out ↦
          get_block_out obj' file' j ((leb_iff obj.block_count j).0 out)
          ∙ sym (get_block_out obj file j ((leb_iff obj.block_count j).0 out))
      | inr inside ↦
          get_block_in obj' file' j ((leb-false_iff obj.block_count j).0 inside)
          ∙ ap (λ (b : Bytes). ok b)
              (block_of-copy_at_ne obj.content obj.block_size j k block e low ne)
          ∙ sym (get_block_in obj file j ((leb-false_iff obj.block_count j).0 inside))
    ]

    reads :
        (j : ℕ)
        → get_block obj' (pos j)
          ≡ (if j == k then ok (kept obj.content obj.block_size k block) else get_block obj (pos j))
    reads j = elim (Bool-cases (j == k)) [
      | inl e ↦ rw e (ap (λ (i : ℕ). get_block obj' (pos i)) ((==_iff j k).0 e) ∙ read_back)
      | inr e ↦ rw e (others j ((==-false_iff j k).0 e))
    ]

-- ===== src/Fileobj/Disk/ReadOnly.antt =====
-- A file on disk: what NewFileObj gives can be read block by block, but not in a last block that is
-- cut off, and never written.
use proxyot.Prelude.{
  ◌⊎◌, ℕ, ◌+◌, ◌*◌, ◌^◌, ◌≤◌, ◌<◌, ◌≡◌, refl, sym, ap, ◌∙◌, arith, false, some, Option, none,
  Bool-cases, inl, inr, length, take, drop, leb, leb_iff, leb-false_iff, if◌then◌else◌, ◌==◌,
}
use proxyot.Prelude.Result.{ok, err, out_of_block_index, wrong_block_size, read_error, write_error}
use proxyot.BigInt.{ℤ, pos, negsuc, ◌*ℤ◌}
use proxyot.Crypto.{Bytes}
use proxyot.Fileobj.{to_int64, reaches, count_blocks}
use proxyot.Fileobj.Count.{count_blocks_lem}
use proxyot.Fileobj.Mem
use proxyot.Fileobj.Mem.{MemFileObj}
use proxyot.Fileobj.Mem.Blocks.{block_of, block_inside}
use proxyot.Fileobj.Mem.Store.{IsFile, get_block_in, get_block_out, offset_exact}
use proxyot.Fileobj.Disk.{File, FileObj, new, get_block, set_block, write_at}

-- Writing to a descriptor that was opened for reading.
write_refused :
    (f : File) (b : Bytes) (off : ℤ) → f.writable ≡ false → write_at f b off ≡ err write_error
unfolding write_at
write_refused f b (pos off) e = rw e
write_refused f b (negsuc off) e = refl

new-readonly :
    (found : Option Bytes) (size : ℕ) (obj : FileObj)
    → new found size ≡ ok obj
    → obj.file.writable ≡ false
unfolding new count_blocks
new-readonly none size obj e = cc
new-readonly (some bytes) size obj e = ground arith

refused_write :
    (obj : FileObj) (blk : ℤ) (block : Bytes)
    → obj.file.writable ≡ false
    → set_block obj blk block
      ≡ err (
          if reaches obj.block_count blk
          then out_of_block_index
          else if length block == obj.block_size
          then write_error
          else wrong_block_size)
unfolding set_block
refused_write obj blk block e =
    let refused = write_refused obj.file block (to_int64 (pos obj.block_size *ℤ blk)) e in
    elim (Bool-cases (reaches obj.block_count blk)) [
      | inl out ↦ rw out
      | inr inside ↦ elim (Bool-cases (length block == obj.block_size)) [
        | inl size ↦ rw (inside, size, refused)
        | inr size ↦ rw (inside, size)
      ]
    ]

-- Whatever the index and the block are, SetBlock on an object that NewFileObj returned is an error:
-- that of the index, else that of the block's size, else that of the write, since os.Open opens
-- the file for reading only.
pub set_block_fails :
    (found : Option Bytes) (size : ℕ) (obj : FileObj) (blk : ℤ) (block : Bytes)
    → new found size ≡ ok obj
    → set_block obj blk block
      ≡ err (
          if reaches obj.block_count blk
          then out_of_block_index
          else if length block == obj.block_size
          then write_error
          else wrong_block_size)
set_block_fails found size obj blk block made =
    refused_write obj blk block (new-readonly found size obj made)

-- The same file in memory.
abbrev pub in_memory : FileObj → MemFileObj
in_memory obj = record {
  content = obj.file.content;
  file_size = obj.file_size;
  block_size = obj.block_size;
  block_count = obj.block_count;
}

new_steps :
    (bytes : Bytes) (size c : ℕ)
    → count_blocks (length bytes) size ≡ ok c
    → new (some bytes) size
      ≡ ok (record {
        file = record { content = bytes; writable = false };
        file_size = length bytes;
        block_size = size;
        block_count = c;
      })
unfolding new
new_steps bytes size c e = rw e

-- For a positive block size and a file whose size is an int64, NewFileObj returns an object that is
-- well formed as a file in memory is, with the file's bytes and this block size.
pub new_returns :
    (bytes : Bytes) (size : ℕ)
    → 0 < size
    → length bytes < 2 ^ 63
    → (obj : FileObj) × (new (some bytes) size ≡ ok obj)
      × IsFile (in_memory obj)
      × (obj.file.content ≡ bytes)
      × (obj.block_size ≡ size)
new_returns bytes size h fits =
    let (c, e, covers, tight) = count_blocks_lem (length bytes) size h in
    (
      record {
        file = record { content = bytes; writable = false };
        file_size = length bytes;
        block_size = size;
        block_count = c;
      },
      new_steps bytes size c e,
      record { positive = h; sized = refl; fits = fits; covers = covers; tight = tight },
      refl,
      refl,
    )

module _ (obj : FileObj) (file : IsFile (in_memory obj)) (k : ℕ) where
  read_inside :
      k < obj.block_count
      → get_block obj (pos k) ≡ (
          if leb (obj.block_size * k + obj.block_size) (length obj.file.content)
          then ok (take obj.block_size (drop (obj.block_size * k) obj.file.content))
          else err read_error)
  unfolding get_block
  read_inside h = rw ((leb-false_iff obj.block_count k).1 h, offset_exact (in_memory obj) file k h)

  read_outside : obj.block_count ≤ k → get_block obj (pos k) ≡ err out_of_block_index
  unfolding get_block
  read_outside h = rw ((leb_iff obj.block_count k).1 h)

  -- An index behind the last block is the same error on disk and in memory, and a block that lies
  -- inside the file is read alike; but a last block that is cut off by the end of the file, which the
  -- memory fills up with zeros, is a read error on disk.
  pub get_block-in_memory :
      ((obj.block_count ≤ k) × (get_block obj (pos k) ≡ Mem.get_block (in_memory obj) (pos k)))
      ⊎ ((k < obj.block_count)
          × (obj.block_size * k + obj.block_size ≤ length obj.file.content)
          × (get_block obj (pos k) ≡ Mem.get_block (in_memory obj) (pos k)))
      ⊎ ((k < obj.block_count)
          × (length obj.file.content < obj.block_size * k + obj.block_size)
          × (get_block obj (pos k) ≡ err read_error)
          × (Mem.get_block (in_memory obj) (pos k)
              ≡ ok (block_of obj.file.content obj.block_size k)))
  get_block-in_memory = elim (Bool-cases (leb obj.block_count k)) [
    | inl out ↦
        let h = (leb_iff obj.block_count k).0 out in
        inl (h, read_outside h ∙ sym (get_block_out (in_memory obj) file k h))
    | inr below ↦
        let h = (leb-false_iff obj.block_count k).0 below in
        elim (Bool-cases (leb (obj.block_size * k + obj.block_size) (length obj.file.content))) [
          | inl e ↦
              let inside = (leb_iff _ (length obj.file.content)).0 e in
              inr (
                inl (
                  h,
                  inside,
                  read_inside h
                      ∙ rw e (
                          ap (λ (b : Bytes). ok b)
                            (sym (block_inside obj.file.content obj.block_size k inside)))
                      ∙ sym (get_block_in (in_memory obj) file k h),
                ))
          | inr e ↦ inr (
              inr (
                h,
                (leb-false_iff _ (length obj.file.content)).0 e,
                read_inside h ∙ rw e,
                get_block_in (in_memory obj) file k h,
              ))
        ]
  ]

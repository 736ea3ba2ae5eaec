-- ===== src/Tests/Files.antt =====
-- The theorems on files at concrete values.
use proxyot.Prelude.{
  List, ◌⊎◌, if◌then◌else◌, ◌==◌, ℕ, ◌≤◌, ◌<◌, ◌≡◌, ◌≢◌, refl, arith, false, some, [], ◌∷◌, length,
}
use proxyot.Prelude.Result.{
  ok, err, panic, read_error, write_error, out_of_block_index, wrong_block_size, index_out_of_range,
}
use proxyot.BigInt.{pos, negsuc}
use proxyot.Crypto.{Bytes}
use proxyot.Fileobj.{count_blocks}
use proxyot.Fileobj.Mem
use proxyot.Fileobj.Mem.{MemFileObj}
use proxyot.Fileobj.Mem.Store.{IsFile, get_block_outcomes, get_block_negative}
use proxyot.Fileobj.Mem.Update.{get_block-set_block}
use proxyot.Fileobj.Disk
use proxyot.Fileobj.Disk.{FileObj, open_file}
use proxyot.Fileobj.Disk.ReadOnly.{set_block_fails, get_block-in_memory}

abbrev five_bytes : Bytes
five_bytes = 1 ∷ 2 ∷ 3 ∷ 4 ∷ 5 ∷ []

-- The last block is cut off.
abbrev three_blocks : MemFileObj
three_blocks = record { content = five_bytes; file_size = 5; block_size = 2; block_count = 3 }

three_blocks-IsFile : IsFile three_blocks
three_blocks-IsFile = record {
  positive = omega arith;
  sized = refl;
  fits = omega arith;
  covers = omega arith;
  tight = omega arith;
}

abbrev on_disk : FileObj
on_disk = record {
  file = record { content = five_bytes; writable = false };
  file_size = 5;
  block_size = 2;
  block_count = 3;
}

opened : Disk.new (some five_bytes) 2 ≡ ok on_disk
unfolding Disk.new count_blocks open_file
opened = refl

two_lt_three : 2 < 3
two_lt_three = omega arith

get_block-set_block_example :
    (obj' : MemFileObj) × (Mem.set_block three_blocks (pos 2) (8 ∷ 9 ∷ []) ≡ ok obj')
    × IsFile obj'
    × (length obj'.content ≡ 5)
    × (obj'.block_count ≡ 3)
    × ((j : ℕ)
        → Mem.get_block obj' (pos j)
          ≡ (if j == 2 then ok (8 ∷ 0 ∷ []) else Mem.get_block three_blocks (pos j)))
    × ((◌≡◌ {A = List ℕ} (8 ∷ 0 ∷ []) (8 ∷ 9 ∷ [])) ⊎ (5 < 6))
get_block-set_block_example =
    get_block-set_block three_blocks 2 (8 ∷ 9 ∷ []) three_blocks-IsFile two_lt_three refl

get_block_outcomes_example :
    ((3 ≤ 1)
      × (Mem.get_block three_blocks (pos 1) ≡ err out_of_block_index)
      × (Mem.set_block three_blocks (pos 1) five_bytes ≡ err out_of_block_index))
    ⊎ ((1 < 3)
        × (Mem.get_block three_blocks (pos 1) ≡ ok (3 ∷ 4 ∷ []))
        × ((length five_bytes ≡ 2)
            ⊎ ((length five_bytes ≢ 2)
                × (Mem.set_block three_blocks (pos 1) five_bytes ≡ err wrong_block_size))))
get_block_outcomes_example = get_block_outcomes three_blocks three_blocks-IsFile 1 five_bytes

get_block_negative_example : Mem.get_block three_blocks (negsuc 0) ≡ panic index_out_of_range
get_block_negative_example = get_block_negative three_blocks three_blocks-IsFile 0 (omega arith)

set_block_fails_example : Disk.set_block on_disk (pos 1) (8 ∷ 9 ∷ []) ≡ err write_error
set_block_fails_example = set_block_fails (some five_bytes) 2 on_disk (pos 1) (8 ∷ 9 ∷ []) opened

get_block-in_memory_example :
    ((3 ≤ 2) × (Disk.get_block on_disk (pos 2) ≡ Mem.get_block three_blocks (pos 2)))
    ⊎ ((2 < 3) × (6 ≤ 5) × (Disk.get_block on_disk (pos 2) ≡ Mem.get_block three_blocks (pos 2)))
    ⊎ ((2 < 3)
        × (5 < 6)
        × (Disk.get_block on_disk (pos 2) ≡ err read_error)
        × (Mem.get_block three_blocks (pos 2) ≡ ok (5 ∷ 0 ∷ [])))
get_block-in_memory_example = get_block-in_memory on_disk three_blocks-IsFile 2

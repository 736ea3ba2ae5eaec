-- ===== src/Fileobj.antt =====
-- fileobj/file_mem.go and fileobj/file.go: a file as blocks of one size, in memory and on disk.
-- Sizes are int64 values that are not below 0; a block index is any int64.
pub mod Count
pub mod Mem
pub mod Disk
use proxyot.Prelude.{ℕ, ◌+◌, ◌-◌, ◌/◌, ◌%◌, ◌^◌, ◌==◌, ltb, leb, Bool, false, if◌then◌else◌, length}
use proxyot.Prelude.Result.{Result, ok, panic, divide_by_zero, index_out_of_range}
use proxyot.BigInt.{ℤ, pos, negsuc}
use proxyot.Crypto.{Bytes}

-- The int64 of 64 bits, and the int64 that a product wraps around to.
abbrev pub of_bits : ℕ → ℤ
of_bits w = if ltb w (2 ^ 63) then pos w else negsuc (2 ^ 64 - 1 - w)

unfoldable pub to_int64 : ℤ → ℤ
to_int64 (pos n) = of_bits (n % 2 ^ 64)
to_int64 (negsuc n) = of_bits (2 ^ 64 - 1 - n % 2 ^ 64)

-- `obj.blockCount <= blk`
abbrev pub reaches : ℕ → ℤ → Bool
reaches count (pos blk) = leb count blk
reaches count (negsuc n) = false

-- updateBlockCount: the quotient, rounded up
unfoldable pub count_blocks : ℕ → ℕ → Result ℕ
count_blocks file_size block_size =
    if block_size == 0
    then panic divide_by_zero
    else ok (
        if ltb 0 (file_size % block_size)
        then file_size / block_size + 1
        else file_size / block_size)

-- s[low:], a fault below 0 and behind the end
abbrev pub slice_from : Bytes → ℤ → Result ℕ
slice_from s (pos low) = if leb low (length s) then ok low else panic index_out_of_range
slice_from s (negsuc n) = panic index_out_of_range

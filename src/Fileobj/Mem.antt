-- ===== src/Fileobj/Mem.antt =====
-- fileobj/file_mem.go: a file in memory.
pub mod Blocks
pub mod Store
pub mod Update
use proxyot.Prelude.{ℕ, ◌==◌, not, List, length, drop, replicate}
use proxyot.Prelude.Equal.{copy, copy_at}
use proxyot.Prelude.Result.{Result, ok, out_of_block_index, wrong_block_size, require, ◌>>=◌, ◌>>◌}
use proxyot.BigInt.{ℤ, pos, ◌*ℤ◌}
use proxyot.Crypto.{Bytes}
use proxyot.Fileobj.{to_int64, reaches, count_blocks, slice_from}

-- type MemFileObj
pub record MemFileObj : Type 0 where
  pub content : Bytes
  pub file_size : ℕ
  pub block_size : ℕ
  pub block_count : ℕ

-- updateMeta
unfoldable pub update_meta : MemFileObj → Result MemFileObj
unfolding count_blocks
update_meta obj = do
  count ← count_blocks (length obj.content) obj.block_size
  ok (record obj { file_size = length obj.content; block_count = count })

-- NewMemFileObj(fileSize, blockSize), given the bytes that math/rand fills the file with
unfoldable pub new : Bytes → ℕ → Result MemFileObj
unfolding count_blocks
new bytes block_size = do
  count ← count_blocks (length bytes) block_size
  ok (record {
    content = bytes;
    file_size = length bytes;
    block_size = block_size;
    block_count = count;
  })

-- GetBlock(blk)
unfoldable pub get_block : MemFileObj → ℤ → Result Bytes
get_block obj blk = do
  require (not (reaches obj.block_count blk)) out_of_block_index
  low ← slice_from obj.content (to_int64 (pos obj.block_size *ℤ blk))
  ok (copy (replicate obj.block_size 0) (drop low obj.content))

-- SetBlock(blk, data)
unfoldable pub set_block : MemFileObj → ℤ → Bytes → Result MemFileObj
unfolding update_meta
set_block obj blk block = do
  require (not (reaches obj.block_count blk)) out_of_block_index
  require (length block == obj.block_size) wrong_block_size
  low ← slice_from obj.content (to_int64 (pos obj.block_size *ℤ blk))
  update_meta (record obj { content = copy_at low obj.content block })

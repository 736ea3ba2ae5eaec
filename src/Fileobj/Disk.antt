-- ===== src/Fileobj/Disk.antt =====
-- fileobj/file.go: a file on disk. The open file is its content and what os.Open allows; calls of
-- the operating system can fail only as the documentation of package os says.
pub mod ReadOnly
use proxyot.Prelude.{
  ℕ, ◌+◌, ◌==◌, leb, Bool, true, false, not, Option, none, some, if◌then◌else◌, length, take, drop,
  ◌++◌,
}
use proxyot.Prelude.Result.{
  Result, ok, err, out_of_block_index, wrong_block_size, read_error, write_error, require, ◌>>=◌,
  ◌>>◌,
}
use proxyot.BigInt.{ℤ, pos, negsuc, ◌*ℤ◌}
use proxyot.Crypto.{Bytes}
use proxyot.Fileobj.{to_int64, reaches, count_blocks}

-- An *os.File: what it holds, and whether its descriptor may write.
pub record File : Type 0 where
  pub content : Bytes
  pub writable : Bool

-- os.Open(filename): for reading only; no file is an error.
unfoldable pub open_file : Option Bytes → Result File
open_file none = err read_error
open_file (some bytes) = ok (record { content = bytes; writable = false })

-- f.ReadAt(b, off) with n = len(b): an error, io.EOF among them, whenever fewer bytes are read.
unfoldable pub read_at : File → ℕ → ℤ → Result Bytes
read_at f n (pos off) =
    if leb (off + n) (length f.content) then ok (take n (drop off f.content)) else err read_error
read_at f n (negsuc off) = err read_error

-- f.WriteAt(b, off), for an offset that is not behind the end
unfoldable pub write_at : File → Bytes → ℤ → Result File
write_at f b (pos off) =
    if f.writable
    then ok (record f { content = take off f.content ++ b ++ drop (off + length b) f.content })
    else err write_error
write_at f b (negsuc off) = err write_error

-- type FileObj
pub record FileObj : Type 0 where
  pub file : File
  pub file_size : ℕ
  pub block_size : ℕ
  pub block_count : ℕ

-- NewFileObj(filename, blockSize)
unfoldable pub new : Option Bytes → ℕ → Result FileObj
unfolding open_file count_blocks
new found block_size = do
  f ← open_file found
  count ← count_blocks (length f.content) block_size
  ok (record {
    file = f;
    file_size = length f.content;
    block_size = block_size;
    block_count = count;
  })

-- updateMeta
unfoldable pub update_meta : FileObj → Result FileObj
unfolding count_blocks
update_meta obj = do
  count ← count_blocks (length obj.file.content) obj.block_size
  ok (record obj { file_size = length obj.file.content; block_count = count })

-- GetBlock(blk)
unfoldable pub get_block : FileObj → ℤ → Result Bytes
unfolding read_at
get_block obj blk = do
  require (not (reaches obj.block_count blk)) out_of_block_index
  read_at obj.file obj.block_size (to_int64 (pos obj.block_size *ℤ blk))

-- SetBlock(blk, data)
unfoldable pub set_block : FileObj → ℤ → Bytes → Result FileObj
unfolding write_at update_meta
set_block obj blk block = do
  require (not (reaches obj.block_count blk)) out_of_block_index
  require (length block == obj.block_size) wrong_block_size
  f ← write_at obj.file block (to_int64 (pos obj.block_size *ℤ blk))
  update_meta (record obj { file = f })

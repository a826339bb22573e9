-- ===== src/File.antt =====
-- `ext4-core/src/file.rs`: the contents of a regular file, read through its extents.
pub mod Content
pub mod Write
use pengwin.Base.{
  ℕ, zero, suc, ◌+◌, ◌-◌, ◌*◌, ◌/◌, ◌%◌, ◌^◌, ◌||◌, ltb, leb, ◌==◌, if◌then◌else◌, min, Option,
  none, some, List, [], ◌∷◌, ◌++◌, length, take, slice, replicate, Outcome, ok, err, map_err,
  ensure, assert, M, done, fail, reads, pure,
}
use pengwin.Base.Fallible
use pengwin.Base.Stateful.{◌>>=◌, ◌>>◌}
use pengwin.Device.{BlockDevice, BlockDeviceError, read_sectors}
use pengwin.Superblock.{Superblock}
use pengwin.Inode.{Inode, is_file, is_symlink}
use pengwin.Extent.{ExtentError, ExtentLeaf}
use pengwin.Extent.Leaves.{collect_leaves_pub, sort_leaves, resolve_lblock}

pub data FileError : Type 0 where
  not_a_file : FileError
  slow_symlink : FileError
  extent : ExtentError → FileError
  block_device : BlockDeviceError → FileError

-- The kinds of `std::io::Error` that the reader makes.
pub data IoError : Type 0 where
  invalid_data : IoError
  invalid_input : IoError
  other : BlockDeviceError → IoError

pub record FileReader : Type 0 where
  pub size : ℕ
  pub position : ℕ
  pub leaves : List ExtentLeaf

-- `i64` as a number up or down from 0.
pub data Signed : Type 0 where
  up : ℕ → Signed
  down : ℕ → Signed

-- `size as i64`.
abbrev pub as_i64 : ℕ → Signed
as_i64 n = if ltb n (2 ^ 63) then up n else down (2 ^ 64 - n)

abbrev pub add_signed : Signed → Signed → Signed
add_signed (up a) (up b) = up (a + b)
add_signed (up a) (down b) = if leb b a then up (a - b) else down (b - a)
add_signed (down a) (up b) = if leb a b then up (b - a) else down (a - b)
add_signed (down a) (down b) = down (a + b)

-- `checked_add` on `i64`.
abbrev pub in_i64 : Signed → Outcome IoError Signed
in_i64 (up n) = if ltb n (2 ^ 63) then ok (up n) else err invalid_input
in_i64 (down n) = if leb n (2 ^ 63) then ok (down n) else err invalid_input

pub data SeekFrom : Type 0 where
  start : ℕ → SeekFrom
  end_by : Signed → SeekFrom
  current : Signed → SeekFrom

unfoldable pub seek_target : FileReader → SeekFrom → Outcome IoError Signed
seek_target r (start n) = if ltb n (2 ^ 63) then ok (up n) else err invalid_input
seek_target r (end_by n) = in_i64 (add_signed (as_i64 r.size) n)
seek_target r (current n) = in_i64 (add_signed (as_i64 r.position) n)

-- A position before the start is refused; one past the end becomes the end.
abbrev pub settle : FileReader → Signed → Outcome IoError ℕ
settle r (up n) = ok (min n r.size)
settle r (down zero) = ok 0
settle r (down (suc n)) = err invalid_input

unfoldable pub seek : SeekFrom → M FileReader IoError ℕ
seek pos = do
  new_pos ← reads (λ r. Fallible.◌>>=◌ (seek_target r pos) (settle r))
  λ r. done new_pos (record r { position = new_pos })

-- A symlink shorter than 60 bytes is stored in the inode; `lossy` is `String::from_utf8_lossy`.
unfoldable pub read_symlink : (List ℕ → List ℕ) → Inode → Outcome FileError (List ℕ)
read_symlink lossy inode =
    if ltb inode.size 60 then ok (lossy (take inode.size inode.block_data)) else err slow_symlink

module _ (D : BlockDevice) (dev : D.Dev) (sb : Superblock) where
  -- `FileReader::new`; the descent of the extent tree is on fuel.
  unfoldable pub new : ℕ → Inode → Outcome FileError FileReader
  new fuel inode = Fallible.◌>>◌ (ensure (is_file inode || is_symlink inode) not_a_file) (
      Fallible.◌>>=◌ (map_err extent (collect_leaves_pub D dev sb fuel inode []))
        λ leaves. ok (record { size = inode.size; position = 0; leaves = sort_leaves leaves }))

  -- `count` bytes of one block from `block_off`: zeros in a hole.
  unfoldable pub read_chunk : Option ℕ → ℕ → ℕ → Outcome IoError (List ℕ)
  read_chunk none block_off count = ok (replicate count 0)
  read_chunk (some block_num) block_off count =
      let sectors_per_block = sb.block_size / 512 in
      Fallible.◌>>◌ (ensure (ltb (block_num * sectors_per_block) (2 ^ 64)) invalid_data) (
        Fallible.◌>>=◌
          (map_err other (read_sectors D dev (block_num * sectors_per_block) sectors_per_block))
          λ block_data.
            Fallible.◌>>◌ (assert (leb (block_off + count) (length block_data)))
              (ok (slice block_data block_off count)))

  -- The loop from `file_off` with `left` bytes to read; every turn reads at least one, so as much
  -- fuel is enough.
  unfoldable pub read_loop : List ExtentLeaf → ℕ → ℕ → ℕ → Outcome IoError (List ℕ)
  read_loop leaves zero file_off left = ok []
  read_loop leaves (suc fuel) file_off left =
      let block_off = file_off % sb.block_size in
      let can_take = min (sb.block_size - block_off) left in
      let more =
        Fallible.◌>>=◌
          (read_chunk (resolve_lblock leaves (file_off / sb.block_size)) block_off can_take)
          λ chunk.
            Fallible.◌>>=◌ (read_loop leaves fuel (file_off + can_take) (left - can_take))
              λ rest. ok (chunk ++ rest) in
      if left == 0 then ok [] else more

  -- `read` into a buffer of `len` bytes: the bytes that it writes, from the start of the buffer.
  unfoldable pub read : ℕ → M FileReader IoError (List ℕ)
  read len r =
      let to_read = min len (r.size - r.position) in
      let bytes_read : M FileReader IoError (List ℕ) = (do
        bytes ← reads (λ r. read_loop r.leaves to_read r.position to_read)
        λ r. done bytes (record r { position = r.position + length bytes })) in
      if leb r.size r.position then done [] r else bytes_read r

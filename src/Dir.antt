-- ===== src/Dir.antt =====
-- `ext4-core/src/dir.rs`: directories, read. Names are the bytes of a `str`; `lossy` stands for
-- `String::from_utf8_lossy`.
pub mod Scan
pub mod Lookup
pub mod Write
use pengwin.Base.{
  ℕ, zero, suc, ◌+◌, ◌-◌, ◌*◌, ◌/◌, ◌^◌, Bool, true, false, not, ◌&&◌, ltb, leb, ◌==◌,
  if◌then◌else◌, Option, none, some, List, [], ◌∷◌, ◌++◌, length, drop, slice, byte_at, u16_le,
  u32_le, div_ceil, Outcome, ok, err, panic, map_err, ensure, assert,
}
use pengwin.Base.Fallible.{◌>>=◌, ◌>>◌}
use pengwin.Device.{BlockDevice, BlockDeviceError, read_sectors}
use pengwin.Superblock.{Superblock}
use pengwin.Inode.{Inode, is_dir}
use pengwin.Extent.{ExtentError}
use pengwin.Extent.Leaves

pub record DirEntry : Type 0 where
  pub inode_num : ℕ
  pub name : List ℕ
  pub file_type : ℕ

abbrev pub max_dir_blocks : ℕ
max_dir_blocks = 65536

pub data DirError : Type 0 where
  not_a_directory : DirError
  invalid_rec_len : ℕ → DirError
  size_too_large : DirError
  block_number_overflow : DirError
  extent : ExtentError → DirError
  block_device : BlockDeviceError → DirError

-- Equality of names.
abbrev pub same_name : List ℕ → List ℕ → Bool
same_name [] [] = true
same_name [] (y ∷ ys) = false
same_name (x ∷ xs) [] = false
same_name (x ∷ xs) (y ∷ ys) = x == y && same_name xs ys

unfoldable pub read_block : (D : BlockDevice) → D.Dev → Superblock → ℕ → Outcome DirError (List ℕ)
read_block D dev sb block = do
  let sectors_per_block = sb.block_size / 512
  ensure (ltb (block * sectors_per_block) (2 ^ 64)) block_number_overflow
  map_err block_device (read_sectors D dev (block * sectors_per_block) sectors_per_block)

abbrev pub push_entry : DirEntry → List DirEntry → List DirEntry
push_entry entry out = if entry.inode_num == 0 then out else out ++ entry ∷ []

-- The test that ends the search.
abbrev pub is_named : List ℕ → DirEntry → Bool
is_named name entry = not (entry.inode_num == 0) && same_name entry.name name

-- The number of blocks to scan, once the inode is seen to be a directory of a sane size.
unfoldable pub block_count : Superblock → Inode → Outcome DirError ℕ
block_count sb dir_inode = do
  ensure (is_dir dir_inode) not_a_directory
  let count = div_ceil dir_inode.size sb.block_size
  ensure (leb count max_dir_blocks) size_too_large
  ok count

module _ (D : BlockDevice) (dev : D.Dev) (sb : Superblock) (fuel : ℕ) where
  -- The data of a logical block, or `none` in a hole; the descent of the extent tree is on fuel.
  unfoldable pub dir_block : Inode → ℕ → Outcome DirError (Option (List ℕ))
  dir_block dir_inode lblock = do
    phys ← map_err extent (Leaves.lookup D dev sb fuel dir_inode lblock)
    elim phys [
      | none ↦ ok none
      | some block_num ↦ read_block D dev sb block_num >>= λ block_data. ok (some block_data)
    ]

module _ (lossy : List ℕ → List ℕ) where
  -- A record whose header is whole: the entry and the length of the record. The indexes of the
  -- header and the slice of the name panic past the end.
  unfoldable pub parse_record : List ℕ → ℕ → Outcome DirError (Option (DirEntry × ℕ))
  parse_record buf offset = do
    assert (leb (offset + 8) (length buf))
    let inode_num = u32_le buf offset
    let rec_len = u16_le buf (offset + 4)
    let name_len = byte_at buf (offset + 6)
    let file_type = byte_at buf (offset + 7)
    ensure (leb 8 rec_len) (invalid_rec_len rec_len)
    ensure (leb (offset + rec_len) (length buf)) (invalid_rec_len rec_len)
    ensure (leb name_len (rec_len - 8)) (invalid_rec_len rec_len)
    elim (inode_num == 0) [
      | true ↦ ok (some (record { inode_num = 0; name = []; file_type = file_type }, rec_len))
      | false ↦ do
        assert (leb (offset + 8 + name_len) (length buf))
        let name = lossy (slice buf (offset + 8) name_len)
        ok (some (record { inode_num = inode_num; name = name; file_type = file_type }, rec_len))
    ]

  -- `buf[offset..]` panics past the end.
  unfoldable pub parse_dirent : List ℕ → ℕ → Outcome DirError (Option (DirEntry × ℕ))
  parse_dirent buf offset = do
    assert (leb offset (length buf))
    elim (ltb (length buf - offset) 8) [ true ↦ ok none | false ↦ parse_record buf offset ]

  -- The loop of `parse_block_entries` from `pos`; a loop without end is a panic.
  unfoldable pub entries_loop : List ℕ → ℕ → ℕ → List DirEntry → Outcome DirError (List DirEntry)
  entries_loop block zero pos out = panic
  entries_loop block (suc fuel) pos out = elim (ltb pos (length block)) [
    | false ↦ ok out
    | true ↦ parse_dirent block pos >>= λ found. elim found [
      | none ↦ ok out
      | some step ↦ entries_loop block fuel (pos + step.1) (push_entry step.0 out)
    ]
  ]

  -- Every turn but the last moves by a record, so the length is fuel enough.
  unfoldable pub parse_block_entries : List ℕ → List DirEntry → Outcome DirError (List DirEntry)
  parse_block_entries block out = entries_loop block (suc (length block)) 0 out

  -- The loop of `lookup` in one block.
  unfoldable pub search_loop : List ℕ → List ℕ → ℕ → ℕ → Outcome DirError (Option ℕ)
  search_loop name block zero pos = panic
  search_loop name block (suc fuel) pos = elim (ltb pos (length block)) [
    | false ↦ ok none
    | true ↦ parse_dirent block pos >>= λ found. elim found [
      | none ↦ ok none
      | some step ↦ elim (is_named name step.0) [
        | true ↦ ok (some step.0.inode_num)
        | false ↦ search_loop name block fuel (pos + step.1)
      ]
    ]
  ]

  unfoldable pub search_block : List ℕ → List ℕ → Outcome DirError (Option ℕ)
  search_block name block = search_loop name block (suc (length block)) 0

  module _ (D : BlockDevice) (dev : D.Dev) (sb : Superblock) (fuel : ℕ) where
    -- The blocks from `lblock`, with `n` left.
    unfoldable pub read_dir_loop : Inode → ℕ → ℕ → List DirEntry → Outcome DirError (List DirEntry)
    read_dir_loop dir_inode lblock zero entries = ok entries
    read_dir_loop dir_inode lblock (suc n) entries = do
      found ← dir_block D dev sb fuel dir_inode lblock
      entries' ← elim found [
        | none ↦ ok entries
        | some block_data ↦ parse_block_entries block_data entries
      ]
      read_dir_loop dir_inode (lblock + 1) n entries'

    unfoldable pub read_dir : Inode → Outcome DirError (List DirEntry)
    read_dir dir_inode = do count ← block_count sb dir_inode; read_dir_loop dir_inode 0 count []

    unfoldable pub lookup_loop : Inode → List ℕ → ℕ → ℕ → Outcome DirError (Option ℕ)
    lookup_loop dir_inode name lblock zero = ok none
    lookup_loop dir_inode name lblock (suc n) = do
      found ← dir_block D dev sb fuel dir_inode lblock
      hit ← elim found [ none ↦ ok none | some block_data ↦ search_block name block_data ]
      elim hit [
        | some inode_num ↦ ok (some inode_num)
        | none ↦ lookup_loop dir_inode name (lblock + 1) n
      ]

    -- The number of the inode with this name.
    unfoldable pub lookup : Inode → List ℕ → Outcome DirError (Option ℕ)
    lookup dir_inode name = do count ← block_count sb dir_inode; lookup_loop dir_inode name 0 count

-- ===== src/Inode.antt =====
-- `ext4-core/src/inode.rs`: inodes as they are read.
pub mod Raw
pub mod Write
use pengwin.Base.{
  ℕ, ◌+◌, ◌-◌, ◌*◌, ◌/◌, ◌%◌, ◌^◌, Bool, true, false, not, ◌||◌, ltb, leb, ◌==◌, if◌then◌else◌,
  Option, none, some, List, length, slice, bit_and, u16_le, u64, div_ceil, Outcome, ok, err,
  map_err, ensure, assert,
}
use pengwin.Base.Fallible.{◌>>=◌, ◌>>◌}
use pengwin.Device.{BlockDevice, BlockDeviceError, read_sectors}
use pengwin.Superblock.{Superblock}
use pengwin.GroupDesc
use pengwin.GroupDesc.{GroupDescTable, GroupDescError}
use pengwin.Journal.Transaction.{Transaction, pinned}
use Raw.{RawInode, read_from}

pub data FileType : Type 0 where
  regular directory symlink other : FileType

pub record Inode : Type 0 where
  pub mode : ℕ
  pub uid : ℕ
  pub gid : ℕ
  pub size : ℕ
  pub atime : ℕ
  pub mtime : ℕ
  pub ctime : ℕ
  pub links_count : ℕ
  pub flags : ℕ
  pub block_data : List ℕ

-- `S_IFMT` masks the four bits of the type.
unfoldable pub file_type : Inode → FileType
file_type inode =
    let kind = bit_and inode.mode 0xF000 in
    if kind == 0x8000
    then regular
    else if kind == 0x4000
    then directory
    else if kind == 0xA000
    then symlink
    else other

unfoldable pub is_dir : Inode → Bool
is_dir inode = elim (file_type inode) [
  | directory ↦ true
  | regular ↦ false
  | symlink ↦ false
  | other ↦ false
]

unfoldable pub is_file : Inode → Bool
is_file inode = elim (file_type inode) [
  | regular ↦ true
  | directory ↦ false
  | symlink ↦ false
  | other ↦ false
]

unfoldable pub is_symlink : Inode → Bool
is_symlink inode = elim (file_type inode) [
  | symlink ↦ true
  | regular ↦ false
  | directory ↦ false
  | other ↦ false
]

unfoldable pub uses_extents : Inode → Bool
uses_extents inode = not (bit_and inode.flags 0x80000 == 0)

pub data InodeError : Type 0 where
  out_of_range : ℕ → ℕ → InodeError
  deleted : ℕ → InodeError
  block_device : BlockDeviceError → InodeError
  group_desc : GroupDescError → InodeError
  invalid_buffer : InodeError

unfoldable pub parse_raw : RawInode → Inode
parse_raw raw = record {
  mode = raw.i_mode;
  uid = raw.i_uid + u16_le raw.osd2 4 * 2 ^ 16;
  gid = raw.i_gid + u16_le raw.osd2 6 * 2 ^ 16;
  size = raw.i_size_lo + raw.i_size_hi * 2 ^ 32;
  atime = raw.i_atime;
  mtime = raw.i_mtime;
  ctime = raw.i_ctime;
  links_count = raw.i_links_count;
  flags = raw.i_flags;
  block_data = raw.i_block;
}

-- `if raw.i_dtime != 0 { return Err(Deleted) }`, then `parse_raw`.
unfoldable pub parse_live : RawInode → ℕ → Outcome InodeError Inode
parse_live raw inode_num = do ensure (raw.i_dtime == 0) (deleted inode_num); ok (parse_raw raw)

abbrev pub in_range : Superblock → ℕ → Bool
in_range sb inode_num = not (inode_num == 0 || ltb sb.inodes_count inode_num)

-- The 64-bit products are cut as a release build cuts them.
unfoldable pub read_inode :
    (D : BlockDevice) → D.Dev → Superblock → GroupDescTable → ℕ → Outcome InodeError Inode
read_inode D dev sb gdt inode_num = do
  ensure (in_range sb inode_num) (out_of_range inode_num sb.inodes_count)
  let group = (inode_num - 1) / sb.inodes_per_group
  let index_in_group = (inode_num - 1) % sb.inodes_per_group
  desc ← map_err group_desc (GroupDesc.get gdt group)
  let offset_in_table = index_in_group * sb.inode_size
  let byte_offset = u64 (u64 (desc.inode_table * sb.block_size) + offset_in_table)
  let start_sector = byte_offset / 512
  let offset_in_first_sector = byte_offset % 512
  let sectors_needed = div_ceil (offset_in_first_sector + sb.inode_size) 512
  raw_bytes ← map_err block_device (read_sectors D dev start_sector sectors_needed)
  let end_offset = offset_in_first_sector + 128
  ensure (leb end_offset (length raw_bytes)) invalid_buffer
  parse_live (read_from (slice raw_bytes offset_in_first_sector 128)) inode_num

-- An inode in a pinned block is read from the pin; a slice past its end panics.
unfoldable pub read_pinned : List ℕ → ℕ → ℕ → Outcome InodeError Inode
read_pinned block offset_in_block inode_num = do
  assert (leb (offset_in_block + 128) (length block))
  parse_live (read_from (slice block offset_in_block 128)) inode_num

-- `read_inode_with_txn` once the inode's group is known.
unfoldable pub read_in_group :
    (D : BlockDevice)
    → D.Dev
    → Superblock
    → GroupDescTable
    → Transaction
    → ℕ
    → GroupDesc.GroupDesc
    → Outcome InodeError Inode
read_in_group D dev sb gdt txn inode_num desc =
    let index_in_group = (inode_num - 1) % sb.inodes_per_group in
    let inodes_per_block = sb.block_size / sb.inode_size in
    let phys_block = u64 (desc.inode_table + index_in_group / inodes_per_block) in
    let offset_in_block = index_in_group % inodes_per_block * sb.inode_size in
    elim (pinned txn phys_block) [
      | some block ↦ read_pinned block offset_in_block inode_num
      | none ↦ read_inode D dev sb gdt inode_num
    ]

unfoldable pub read_inode_with_txn :
    (D : BlockDevice)
    → D.Dev
    → Superblock
    → GroupDescTable
    → Transaction
    → ℕ
    → Outcome InodeError Inode
read_inode_with_txn D dev sb gdt txn inode_num = do
  ensure (in_range sb inode_num) (out_of_range inode_num sb.inodes_count)
  desc ← map_err group_desc (GroupDesc.get gdt ((inode_num - 1) / sb.inodes_per_group))
  read_in_group D dev sb gdt txn inode_num desc

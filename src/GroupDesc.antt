-- ===== src/GroupDesc.antt =====
-- `ext4-core/src/group_desc.rs`: block group descriptors and the table of them.
pub mod Counts
use pengwin.Base.{
  ℕ, zero, suc, ◌+◌, ◌-◌, ◌*◌, ◌/◌, ◌^◌, ◌≡◌, Bool, not, ltb, leb, ◌==◌, if◌then◌else◌, List, [],
  ◌∷◌, length, get_elem?, set, slice, splice, replicate, min, u16_le, u32_le, u32, div_ceil,
  Outcome, ok, err, map_err, ok_or, ensure,
}
use pengwin.Base.Fallible.{◌>>=◌, ◌>>◌}
use pengwin.Device.{BlockDevice, BlockDeviceError, read_sectors}
use pengwin.Superblock.{Superblock}

pub record GroupDesc : Type 0 where
  pub block_bitmap : ℕ
  pub inode_bitmap : ℕ
  pub inode_table : ℕ
  pub free_blocks_count : ℕ
  pub free_inodes_count : ℕ
  pub itable_unused : ℕ

-- `(hi << 32) | lo`: the operands have no bit in common.
unfoldable pub combine32 : ℕ → ℕ → ℕ
combine32 lo hi = hi * 2 ^ 32 + lo

-- `RawGroupDesc` of a 64-byte buffer, and the fields that are kept of it.
unfoldable pub from_raw : List ℕ → ℕ → GroupDesc
from_raw raw desc_size =
    let hi32 = λ (off : ℕ). if leb 64 desc_size then u32_le raw off else 0 in
    let hi16 = λ (off : ℕ). if leb 64 desc_size then u16_le raw off else 0 in
    record {
      block_bitmap = combine32 (u32_le raw 0) (hi32 32);
      inode_bitmap = combine32 (u32_le raw 4) (hi32 36);
      inode_table = combine32 (u32_le raw 8) (hi32 40);
      free_blocks_count = u16_le raw 12 + hi16 44 * 2 ^ 16;
      free_inodes_count = u16_le raw 14 + hi16 46 * 2 ^ 16;
      itable_unused = u16_le raw 28 + u16_le raw 50 * 2 ^ 16;
    }

pub data GroupDescError : Type 0 where
  out_of_range : ℕ → ℕ → GroupDescError
  invalid_inode : ℕ → GroupDescError
  block_device : BlockDeviceError → GroupDescError
  invalid_buffer : GroupDescError
  too_many_groups : ℕ → GroupDescError
  table_size_overflow : GroupDescError

pub record GroupDescTable : Type 0 where
  pub groups : List GroupDesc

abbrev pub max_groups : ℕ
max_groups = 2 ^ 21

unfoldable pub groups_count : Superblock → Outcome GroupDescError ℕ
groups_count sb = do
  ensure (not (sb.blocks_per_group == 0)) (too_many_groups 0)
  let count = div_ceil sb.blocks_count sb.blocks_per_group
  ensure (leb count max_groups) (too_many_groups count)
  ok count

-- The 64-byte buffer of one descriptor: what lies beyond `desc_size` stays zero.
unfoldable pub read_desc : List ℕ → ℕ → ℕ → Outcome GroupDescError GroupDesc
read_desc raw_bytes desc_size i = do
  let off = i * desc_size
  let len = min desc_size 64
  ensure (leb (off + len) (length raw_bytes)) invalid_buffer
  ok (from_raw (splice (replicate 64 0) 0 (slice raw_bytes off len)) desc_size)

-- The loop of `load` from descriptor `i`, with `n` left.
unfoldable pub load_loop : List ℕ → ℕ → ℕ → ℕ → Outcome GroupDescError (List GroupDesc)
load_loop raw_bytes desc_size i zero = ok []
load_loop raw_bytes desc_size i (suc n) = do
  desc ← read_desc raw_bytes desc_size i
  rest ← load_loop raw_bytes desc_size (i + 1) n
  ok (desc ∷ rest)

-- The products stay below 2 ^ 64, so the checked multiplications do not fail: at most 2 ^ 21
-- groups of 16-bit sizes, and 32-bit block numbers of blocks of at most 128 sectors.
unfoldable pub load : (D : BlockDevice) → D.Dev → Superblock → Outcome GroupDescError GroupDescTable
load D dev sb = do
  group_count ← groups_count sb
  let gdt_block = sb.first_data_block + 1
  let total_bytes = group_count * sb.desc_size
  let start_sector = gdt_block * (sb.block_size / 512)
  raw_bytes ← map_err block_device (read_sectors D dev start_sector (div_ceil total_bytes 512))
  groups ← load_loop raw_bytes sb.desc_size 0 group_count
  ok (record { groups = groups })

unfoldable pub get : GroupDescTable → ℕ → Outcome GroupDescError GroupDesc
get gdt index = ok_or (out_of_range index (length gdt.groups)) (get_elem? gdt.groups index)

unfoldable pub group_for_inode : GroupDescTable → ℕ → Superblock → Outcome GroupDescError GroupDesc
group_for_inode gdt inode_num sb = do
  ensure (not (inode_num == 0)) (invalid_inode 0)
  get gdt ((inode_num - 1) / sb.inodes_per_group)

abbrev pub group_count : GroupDescTable → ℕ
group_count gdt = length gdt.groups

-- The `i64` by which a count changes: up or down by a number.
pub data Delta : Type 0 where
  plus : ℕ → Delta
  minus : ℕ → Delta

-- `(count as i64 + delta).max(0) as u32`: a sum past the `i64` wraps to a negative one.
unfoldable pub adjust : ℕ → Delta → ℕ
adjust count (plus n) = if ltb (count + n) (2 ^ 63) then u32 (count + n) else 0
adjust count (minus n) = u32 (count - n)

unfoldable pub adjust_free_blocks :
    GroupDescTable → ℕ → Delta → Outcome GroupDescError GroupDescTable
adjust_free_blocks gdt group delta = do
  desc ← get gdt group
  let desc' = record desc { free_blocks_count = adjust desc.free_blocks_count delta }
  ok (record { groups = set gdt.groups group desc' })

unfoldable pub adjust_free_inodes :
    GroupDescTable → ℕ → Delta → Outcome GroupDescError GroupDescTable
adjust_free_inodes gdt group delta = do
  desc ← get gdt group
  let desc' = record desc { free_inodes_count = adjust desc.free_inodes_count delta }
  ok (record { groups = set gdt.groups group desc' })

-- `slot` is the inode just allocated; the inodes above it at the end of the table are unused.
unfoldable pub update_itable_unused :
    GroupDescTable → ℕ → ℕ → Superblock → Outcome GroupDescError GroupDescTable
update_itable_unused gdt group slot sb = do
  desc ← get gdt group
  let used_count = slot + 1
  let unused_at_end = sb.inodes_per_group - used_count
  let desc' = record desc { itable_unused = unused_at_end }
  if ltb sb.inodes_per_group used_count
      then ok gdt
      else if ltb unused_at_end desc.itable_unused
      then ok (record { groups = set gdt.groups group desc' })
      else ok gdt

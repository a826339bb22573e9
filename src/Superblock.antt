-- ===== src/Superblock.antt =====
-- `ext4-core/src/superblock.rs`: the on-disk superblock and its parsed form.
use pengwin.Base.{
  ℕ, ◌+◌, ◌-◌, ◌*◌, ◌/◌, ◌^◌, ◌≡◌, Bool, true, false, not, ◌&&◌, ◌||◌, ltb, ◌==◌, if◌then◌else◌,
  List, [], ◌∷◌, length, slice, bit_and, u16_le, u32_le, Outcome, ok, err, map_err, ensure,
}
use pengwin.Base.Fallible.{◌>>=◌, ◌>>◌}
use pengwin.Device.{BlockDevice, BlockDeviceError, read_sectors}
pub mod Raw
pub mod Valid
pub mod Write
use Raw.{
  s_inodes_count, s_blocks_count_lo, s_first_data_block, s_log_block_size, s_blocks_per_group,
  s_inodes_per_group, s_magic, s_state, s_rev_level, s_inode_size, s_feature_incompat,
  s_feature_ro_compat, s_uuid, s_volume_name, s_desc_size, s_blocks_count_hi,
}

-- `ENCRYPT | INLINE_DATA`.
abbrev pub unsupported_mask : ℕ
unsupported_mask = 0x18000

abbrev pub valid_fs : ℕ
valid_fs = 0x0001

abbrev pub error_fs : ℕ
error_fs = 0x0002

-- The volume name is kept as its bytes, before `from_utf8_lossy`.
pub record Superblock : Type 0 where
  pub block_size : ℕ
  pub blocks_count : ℕ
  pub inodes_count : ℕ
  pub inodes_per_group : ℕ
  pub blocks_per_group : ℕ
  pub first_data_block : ℕ
  pub uuid : List ℕ
  pub volume_name : List ℕ
  pub desc_size : ℕ
  pub feature_incompat : ℕ
  pub feature_ro_compat : ℕ
  pub inode_size : ℕ
  pub state : ℕ

unfoldable pub state_has_error : Superblock → Bool
state_has_error sb = not (bit_and sb.state error_fs == 0)

unfoldable pub was_cleanly_unmounted : Superblock → Bool
was_cleanly_unmounted sb = not (bit_and sb.state valid_fs == 0)

pub data SuperblockError : Type 0 where
  bad_magic : ℕ → SuperblockError
  unsupported_features : ℕ → SuperblockError
  block_device : BlockDeviceError → SuperblockError
  invalid_buffer : SuperblockError
  invalid_block_size : ℕ → SuperblockError
  invalid_inode_size : ℕ → SuperblockError
  invalid_geometry : SuperblockError

-- `name_bytes[..name_end]`, up to the first zero byte.
unfoldable pub until_zero : List ℕ → List ℕ
until_zero [] = []
until_zero (b ∷ bs) = if b == 0 then [] else b ∷ until_zero bs

-- `u16::is_power_of_two` of a number above 0.
abbrev pub is_power_of_two : ℕ → Bool
is_power_of_two s = bit_and s (s - 1) == 0

unfoldable pub parse_inode_size : List ℕ → Outcome SuperblockError ℕ
parse_inode_size raw =
    if s_rev_level raw == 0
    then ok 128
    else if ltb (s_inode_size raw) 128
    then ok 128
    else if ltb 1024 (s_inode_size raw) || not (is_power_of_two (s_inode_size raw))
    then err (invalid_inode_size (s_inode_size raw))
    else ok (s_inode_size raw)

-- The size, the magic number, the feature mask and the block size, in the order of `parse`.
unfoldable pub check_format : List ℕ → Outcome SuperblockError (Unit {0})
check_format raw = do
  ensure (length raw == 1024) invalid_buffer
  ensure (s_magic raw == 0xEF53) (bad_magic (s_magic raw))
  let unsupported = bit_and (s_feature_incompat raw) unsupported_mask
  ensure (unsupported == 0) (unsupported_features unsupported)
  ensure (not (ltb 6 (s_log_block_size raw))) (invalid_block_size (s_log_block_size raw))

unfoldable pub check_geometry : List ℕ → Outcome SuperblockError (Unit {0})
check_geometry raw =
    ensure (not (s_inodes_per_group raw == 0 || s_blocks_per_group raw == 0)) invalid_geometry

-- The parsed superblock of an accepted buffer.
unfoldable pub from_raw : List ℕ → ℕ → Superblock
from_raw raw inode_size = record {
  block_size = 1024 * 2 ^ s_log_block_size raw;
  blocks_count = s_blocks_count_hi raw * 2 ^ 32 + s_blocks_count_lo raw;
  inodes_count = s_inodes_count raw;
  inodes_per_group = s_inodes_per_group raw;
  blocks_per_group = s_blocks_per_group raw;
  first_data_block = s_first_data_block raw;
  uuid = s_uuid raw;
  volume_name = until_zero (s_volume_name raw);
  desc_size = if ltb (s_desc_size raw) 32 then 32 else s_desc_size raw;
  feature_incompat = s_feature_incompat raw;
  feature_ro_compat = s_feature_ro_compat raw;
  inode_size = inode_size;
  state = s_state raw;
}

-- `parse` once the two sectors are read.
unfoldable pub parse_bytes : List ℕ → Outcome SuperblockError Superblock
parse_bytes raw = do
  check_format raw
  inode_size ← parse_inode_size raw
  check_geometry raw
  ok (from_raw raw inode_size)

-- The superblock lives at byte 1024: sectors 2 and 3.
unfoldable pub parse : (D : BlockDevice) → D.Dev → Outcome SuperblockError Superblock
parse D dev = do raw_bytes ← map_err block_device (read_sectors D dev 2 2); parse_bytes raw_bytes

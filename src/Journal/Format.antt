-- ===== src/Journal/Format.antt =====
-- `ext4-core/src/journal/superblock.rs` and the errors of `journal/mod.rs`. The journal is
-- big-endian.
use pengwin.Base.{ℕ, Bool, not, ◌||◌, leb, ◌==◌, List, slice, bit_and, u32_be, Outcome, ok, ensure}
use pengwin.Base.Fallible.{◌>>◌}
use pengwin.Device.{BlockDeviceError}
use pengwin.Inode.{InodeError}
use pengwin.Extent.{ExtentError}

abbrev pub journal_magic : ℕ
journal_magic = 0xC03B3998

-- `errno` is the number as stored, before it is read as signed.
pub data JournalError : Type 0 where
  bad_magic : ℕ → JournalError
  block_out_of_range : ℕ → JournalError
  journal_errno : ℕ → JournalError
  unsupported_features : ℕ → JournalError
  block_device : BlockDeviceError → JournalError
  inode : InodeError → JournalError
  extent : ExtentError → JournalError
  invalid_buffer : JournalError
  invalid_geometry : ℕ → ℕ → JournalError

pub record JournalSuperblock : Type 0 where
  pub block_size : ℕ
  pub total_blocks : ℕ
  pub first_usable_block : ℕ
  pub start_sequence : ℕ
  pub start_block : ℕ
  pub errno : ℕ
  pub feature_incompat : ℕ
  pub uuid : List ℕ

unfoldable pub is_clean : JournalSuperblock → Bool
is_clean sb = sb.start_block == 0

unfoldable pub needs_recovery : JournalSuperblock → Bool
needs_recovery sb = not (sb.start_block == 0)

unfoldable pub has_64bit : JournalSuperblock → Bool
has_64bit sb = not (bit_and sb.feature_incompat 0x002 == 0)

unfoldable pub has_csum_v3 : JournalSuperblock → Bool
has_csum_v3 sb = not (bit_and sb.feature_incompat 0x010 == 0)

-- `!SUPPORTED_INCOMPAT`: all bits but the lowest five.
abbrev pub unsupported_incompat : ℕ
unsupported_incompat = 0xFFFFFFE0

-- The fields of `RawJournalSuperblock`, from its 1024 bytes.
abbrev raw_superblock : List ℕ → JournalSuperblock
raw_superblock raw = record {
  block_size = u32_be raw 12;
  total_blocks = u32_be raw 16;
  first_usable_block = u32_be raw 20;
  start_sequence = u32_be raw 24;
  start_block = u32_be raw 28;
  errno = u32_be raw 32;
  feature_incompat = u32_be raw 40;
  uuid = slice raw 48 16;
}

unfoldable pub parse : List ℕ → Outcome JournalError JournalSuperblock
parse raw = do
  let magic = u32_be raw 0
  ensure (magic == journal_magic) (bad_magic magic)
  let sb = raw_superblock raw
  let unsupported = bit_and sb.feature_incompat unsupported_incompat
  ensure (unsupported == 0) (unsupported_features unsupported)
  ensure (not (sb.first_usable_block == 0 || leb sb.total_blocks sb.first_usable_block))
      (invalid_geometry sb.total_blocks sb.first_usable_block)
  ok sb

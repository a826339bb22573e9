-- ===== src/Journal/Mount.antt =====
-- `ext4-core/src/journal/mount.rs`, with `check_and_recover` of `journal/mod.rs`: mounting for
-- writing.
pub mod Flags
use pengwin.Base.{
  ℕ, ◌+◌, ◌*◌, Bool, true, false, not, ◌==◌, List, length, splice, u16, u16_le, bytes_u16_le,
  bit_and, bit_or, Outcome, ok, err, map_err, ensure, M, done, pure, reads, map_fail,
}
use pengwin.Base.Fallible
use pengwin.Base.Stateful.{◌>>=◌, ◌>>◌}
use pengwin.Device.{BlockDevice, BlockDeviceError, read_sectors, write_sectors}
use pengwin.Superblock
use pengwin.Superblock.{Superblock, SuperblockError, state_has_error, valid_fs}
use pengwin.Superblock.Raw.{s_state}
use pengwin.GroupDesc
use pengwin.GroupDesc.{GroupDescTable, GroupDescError}
use pengwin.Journal.Format.{JournalError, journal_errno}
use pengwin.Journal.Load.{Journal, load}
use pengwin.Journal.Replay.{replay}
use pengwin.Journal.Writer
use pengwin.Journal.Writer.{JournalWriter}

pub data MountError : Type 0 where
  filesystem_error : MountError
  journal : JournalError → MountError
  superblock : SuperblockError → MountError
  group_desc : GroupDescError → MountError
  block_device : BlockDeviceError → MountError
  invalid_buffer : MountError

-- `s_state` in the superblock's 1024 bytes, changed by `f`.
unfoldable pub patch_state : (ℕ → ℕ) → List ℕ → Outcome MountError (List ℕ)
patch_state f bytes =
    Fallible.◌>>◌ (ensure (length bytes == 1024) invalid_buffer)
      (ok (splice bytes 58 (bytes_u16_le (f (s_state bytes)))))

-- `current & !VALID_FS` and `current | VALID_FS`.
abbrev pub without_valid : ℕ → ℕ
without_valid current = bit_and current 0xFFFE

abbrev pub with_valid : ℕ → ℕ
with_valid current = bit_or current valid_fs

module _ (D : BlockDevice) where
  -- The part that both flag changes share.
  unfoldable pub change_state : (ℕ → ℕ) → M D.Dev MountError (Unit {0})
  change_state f = do
    bytes ← reads (λ dev. map_err block_device (read_sectors D dev 2 2))
    patched ← reads (λ dev. patch_state f bytes)
    map_fail block_device (write_sectors D 2 patched)

  unfoldable pub set_dirty_flag : M D.Dev MountError (Unit {0})
  set_dirty_flag = change_state without_valid

  unfoldable pub clear_dirty_flag : M D.Dev MountError (Unit {0})
  clear_dirty_flag = do change_state with_valid; map_fail block_device D.flush

  -- The first argument bounds the descent of the journal's extent tree, the second the replay.
  unfoldable pub check_and_recover :
      ℕ → ℕ → Superblock → GroupDescTable → M D.Dev JournalError Journal
  check_and_recover depth fuel fs_sb gdt = do
    loaded ← reads (λ dev. load D dev fs_sb gdt depth)
    reads (λ dev. ensure (loaded.sb.errno == 0) (journal_errno loaded.sb.errno))
    replay D fs_sb loaded fuel
    pure loaded

  -- `Ext4FsRw` beside the device.
  pub record Ext4FsRw : Type 0 where
    pub sb : Superblock
    pub gdt : GroupDescTable
    pub writer : JournalWriter

  unfoldable pub open_rw : ℕ → ℕ → M D.Dev MountError Ext4FsRw
  open_rw depth fuel = do
    sb ← reads (λ dev. map_err superblock (Superblock.parse D dev))
    reads (λ dev. ensure (not (state_has_error sb)) filesystem_error)
    gdt ← reads (λ dev. map_err group_desc (GroupDesc.load D dev sb))
    loaded ← map_fail journal (check_and_recover depth fuel sb gdt)
    set_dirty_flag
    map_fail block_device D.flush
    pure (record { sb = sb; gdt = gdt; writer = Writer.new loaded.sb loaded.blocks })

  -- `flush_pending` of the writer does nothing.
  unfoldable pub unmount : M D.Dev MountError (Unit {0})
  unmount = do clear_dirty_flag; map_fail block_device D.flush

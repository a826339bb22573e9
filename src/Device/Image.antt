-- ===== src/Device/Image.antt =====
-- `ext4-core/src/block_device/image_file.rs`: a device over a flat image file. The operating
-- system's file is a parameter: positioned reads and writes, `sync_data` and the length.
pub mod Contents
use pengwin.Base.{
  ℕ, ◌*◌, ◌/◌, ◌%◌, ◌^◌, ◌-◌, ◌++◌, List, length, replicate, ltb, ◌==◌, if◌then◌else◌, Outcome, ok,
  err, panic, map_err, M, fail, abort, pure, zoom,
}
use pengwin.Base.Fallible
use pengwin.Base.Stateful.{◌>>=◌}
use pengwin.Device.Sectors.{BlockDeviceError, out_of_range, io, invalid_geometry, BlockDevice}

-- The target that the code is compiled for: the helpers of both are in the file.
pub data Platform : Type 0 where
  unix windows : Platform

-- `std::fs::File` opened for reading and writing: errors are the codes of `std::io::Error`. A
-- read is of at most 512 bytes; `seek_read` gives those that it read and `seek_write` their
-- number, which may be less.
pub record OsFile : Type 1 where
  pub File : Type 0
  pub len : File → ℕ
  pub read_exact_at : File → ℕ → Outcome ℕ (List ℕ)
  pub write_all_at : ℕ → List ℕ → M File ℕ (Unit {0})
  pub seek_read : File → ℕ → Outcome ℕ (List ℕ)
  pub seek_write : ℕ → List ℕ → M File ℕ ℕ
  pub sync_data : M File ℕ (Unit {0})

module _ (F : OsFile) where
  pub record ImageFileDevice : Type 0 where
    pub file : F.File
    pub sectors : ℕ

  -- `open` and `open_rw` after the file is open.
  unfoldable pub open_file : F.File → Outcome BlockDeviceError ImageFileDevice
  open_file f =
      let size = F.len f in
      if size % 512 == 0
      then ok (record { file = f; sectors = size / 512 })
      else err (invalid_geometry size)

  -- The two guards that `read_sector` and `write_sector` share: the byte offset, or the error.
  unfoldable pub sector_offset : ImageFileDevice → ℕ → Outcome BlockDeviceError ℕ
  sector_offset d sector_index =
      if ltb sector_index d.sectors
      then if ltb (sector_index * 512) (2 ^ 64)
        then ok (sector_index * 512)
        else err (out_of_range sector_index d.sectors)
      else err (out_of_range sector_index d.sectors)

  -- The buffer of the caller, `read_sectors`, is zeroed: a short read on Windows leaves its rest.
  unfoldable pub read_at_offset : Platform → F.File → ℕ → Outcome ℕ (List ℕ)
  read_at_offset unix f offset = F.read_exact_at f offset
  read_at_offset windows f offset =
      Fallible.◌>>=◌ (F.seek_read f offset) λ bytes. ok (bytes ++ replicate (512 - length bytes) 0)

  -- A short write on Windows is no error.
  unfoldable pub write_at_offset : Platform → ℕ → List ℕ → M F.File ℕ (Unit {0})
  write_at_offset unix offset b = F.write_all_at offset b
  write_at_offset windows offset b = do _ ← F.seek_write offset b; pure tt

  unfoldable pub image_read_sector :
      Platform → ImageFileDevice → ℕ → Outcome BlockDeviceError (List ℕ)
  image_read_sector platform d i = elim (sector_offset d i) [
    | ok offset ↦ map_err io (read_at_offset platform d.file offset)
    | err e ↦ err e
    | panic ↦ panic
  ]

  abbrev on_file {ℓ} : {A : Type ℓ} → M F.File ℕ A → M ImageFileDevice BlockDeviceError A
  on_file = zoom (λ d. d.file) (λ f d. record d { file = f }) io

  unfoldable pub image_write_sector :
      Platform → ℕ → List ℕ → M ImageFileDevice BlockDeviceError (Unit {0})
  image_write_sector platform i b d = elim (sector_offset d i) [
    | ok offset ↦ on_file (write_at_offset platform offset b) d
    | err e ↦ fail e d
    | panic ↦ abort
  ]

  unfoldable pub image_flush : M ImageFileDevice BlockDeviceError (Unit {0})
  image_flush = on_file F.sync_data

  abbrev pub image_device : Platform → BlockDevice
  image_device platform = record {
    Dev = ImageFileDevice;
    sector_count = λ d. d.sectors;
    read_sector = image_read_sector platform;
    write_sector = image_write_sector platform;
    flush = image_flush;
  }

-- ===== src/WriteState/Blocks.antt =====
-- A whole block that was written is read back.
use pengwin.Base.{ℕ, ◌/◌, ◌≡◌, List, length, ok, done, arith}
use pengwin.Device.{BlockDevice, IsLawful, read_sectors, write_sectors}
use pengwin.Device.Transfer.{read_sectors-write_sectors}
use pengwin.Superblock.{Superblock}
use pengwin.Superblock.Valid.{IsValid, block_size_facts}
use pengwin.WriteState.{resize, resize_exact}

pub read-write_block :
    (D : BlockDevice) (lawful : IsLawful D) (sb : Superblock) (valid : IsValid sb) (start : ℕ)
    (bytes : List ℕ) (d d' : D.Dev)
    → length bytes ≡ sb.block_size
    → write_sectors D start (resize bytes sb.block_size) d ≡ done tt d'
    → read_sectors D d' start (sb.block_size / 512) ≡ ok bytes
read-write_block D lawful sb valid start bytes d d' size h =
    let (whole, low, high) = block_size_facts valid in
    let h' = rw (resize_exact bytes sb.block_size size) at h in
    rw (← size) (read_sectors-write_sectors D lawful start bytes d d' (omega arith) h')

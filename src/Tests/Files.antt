-- ===== src/Tests/Files.antt =====
-- A file of two sectors in memory.
use pengwin.Base.{
  ℕ, ◌+◌, ◌==◌, ◌≡◌, refl, arith, leb, if◌then◌else◌, List, ◌++◌, length, replicate, slice, splice,
  done, fail, ok, err,
}
use pengwin.Device.Image.{
  OsFile, unix, ImageFileDevice, sector_offset, read_at_offset, write_at_offset, image_read_sector,
  image_write_sector,
}
use pengwin.Device.Image.Contents.{IsFile, IsWhole, sector, image_write_sector-Reads}

abbrev memory_file : OsFile
memory_file = record {
  File = List ℕ;
  len = length;
  read_exact_at = λ f off. if leb (off + 512) (length f) then ok (slice f off 512) else err 1;
  write_all_at =
      λ off b f. if leb (off + length b) (length f) then done tt (splice f off b) else fail 2 f;
  seek_read = λ f off. ok (slice f off 512);
  seek_write = λ off b f. done (length b) (splice f off b);
  sync_data = λ f. done tt f;
}

abbrev same : List ℕ → List ℕ
same f = f

memory_file-IsFile : IsFile memory_file same
memory_file-IsFile = record {
  read_exact = λ f off {b} inside h. ground arith;
  write_all = λ f f' off b inside h. ground arith;
}

abbrev two_sectors : ImageFileDevice memory_file
two_sectors = record { file = replicate 512 1 ++ replicate 512 2; sectors = 2 }

abbrev written : ImageFileDevice memory_file
written = record { file = replicate 512 1 ++ replicate 512 7; sectors = 2 }

write_second : image_write_sector memory_file unix 1 (replicate 512 7) two_sectors ≡ done tt written
unfolding image_write_sector write_at_offset sector_offset
write_second = refl

read_first : image_read_sector memory_file unix written 0 ≡ ok (replicate 512 1)
unfolding image_read_sector read_at_offset sector_offset
read_first = refl

image_write_sector-Reads_example :
    (written.sectors ≡ two_sectors.sectors)
    × IsWhole memory_file same written
    × (replicate 512 1
        ≡ (if 0 == 1 then replicate 512 7 else sector memory_file same two_sectors 0))
image_write_sector-Reads_example =
    image_write_sector-Reads memory_file same memory_file-IsFile two_sectors written 1 0
      (replicate 512 7) (replicate 512 1) (omega arith) refl write_second read_first

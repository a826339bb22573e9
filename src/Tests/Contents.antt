-- ===== src/Tests/Contents.antt =====
-- Data written into the blocks of a file on the small image.
use pengwin.Base.{◌+◌, ◌-◌, ◌%◌, ◌≤◌, ◌≡◌, refl, arith, [], ◌∷◌, length, byte_at, done}
use pengwin.Device.{read_loop, read_sectors, write_loop, write_sectors}
use pengwin.Journal.Transaction.{upsert, pin_block}
use pengwin.WriteState.{WriteState, copy_at}
use pengwin.File.Write.{part_of, base_of, write_part}
use pengwin.File.Write.Parts.{part_of-place}
use pengwin.File.Write.Place.{IsPlaced, write_part-IsPlaced}
use pengwin.Tests.Memory.{memory, memory-IsLawful, read_memory, write_memory, is_sector, all_bytes}
use pengwin.Tests.Image.{small_sb, small_sb-IsValid, small, final}

-- Bytes 6 to 11 in blocks of 4: the fourth byte is the second of block 2.
part_of-place_example :
    ((part_of 4 6 (1 ∷ 2 ∷ 3 ∷ 4 ∷ 5 ∷ 6 ∷ []) 2).0 ≤ (6 + 3) % 4)
    × (byte_at
          (part_of 4 6 (1 ∷ 2 ∷ 3 ∷ 4 ∷ 5 ∷ 6 ∷ []) 2).1
          ((6 + 3) % 4 - (part_of 4 6 (1 ∷ 2 ∷ 3 ∷ 4 ∷ 5 ∷ 6 ∷ []) 2).0)
        ≡ 4)
    × ((part_of 4 6 (1 ∷ 2 ∷ 3 ∷ 4 ∷ 5 ∷ 6 ∷ []) 2).0
          + length (part_of 4 6 (1 ∷ 2 ∷ 3 ∷ 4 ∷ 5 ∷ 6 ∷ []) 2).1
        ≤ 4)
part_of-place_example = part_of-place 4 6 (1 ∷ 2 ∷ 3 ∷ 4 ∷ 5 ∷ 6 ∷ []) 3 (omega arith) (omega arith)

abbrev placed : WriteState memory
placed = final (write_part memory small_sb 2 10 5 (7 ∷ 8 ∷ []) small) small

place_two : write_part memory small_sb 2 10 5 (7 ∷ 8 ∷ []) small ≡ done tt placed
unfolding write_part base_of copy_at read_loop read_sectors write_loop write_sectors upsert
    pin_block read_memory write_memory is_sector all_bytes
place_two = refl

write_part-IsPlaced_example : IsPlaced memory small_sb 2 10 5 (7 ∷ 8 ∷ []) small placed
write_part-IsPlaced_example =
    write_part-IsPlaced memory small_sb 2 memory-IsLawful small_sb-IsValid 10 5 (7 ∷ 8 ∷ []) small
      placed place_two

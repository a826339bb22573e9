-- ===== src/Tests/Storage.antt =====
-- Transfers of several sectors, bitmaps, descriptors and transactions.
use pengwin.Base.{
  ℕ, ◌==◌, ◌≡◌, refl, inr, arith, if◌then◌else◌, true, false, List, [], ◌∷◌, replicate, some, ok,
  done, IsBytes,
}
use pengwin.Device.{read_sectors, write_loop, write_sectors}
use pengwin.Device.Transfer.{read_sectors-write_sectors, read_sectors-outside}
use pengwin.GroupDesc.{get, adjust, minus, adjust_free_blocks}
use pengwin.Fsp.Handles.{free_blocks}
use pengwin.Fsp.Counts.{Moves, adjust_free_blocks-free_blocks}
use pengwin.Journal.Transaction.{Transaction, pin_block, pinned}
use pengwin.Journal.Transaction.Pins.{IsDeduplicated, pinned-pin_block}
use pengwin.Alloc.Bitmap.{bit_is_set, set_bit, clear_bit}
use pengwin.Alloc.Bitmap.Laws.{bit_is_set-set_bit, bit_is_set-clear_bit}
use pengwin.Tests.Memory.{
  memory, memory-IsLawful, write_memory, is_sector, all_bytes, all_bytes-IsBytes,
}
use pengwin.Tests.Image.{small_sectors, small_gdt, small_desc, final}

abbrev two_sectors : List ℕ
two_sectors = replicate 1024 7

abbrev written : ℕ → List ℕ
written = final (write_sectors memory 3 two_sectors small_sectors) small_sectors

write_two : write_sectors memory 3 two_sectors small_sectors ≡ done tt written
unfolding write_loop write_sectors write_memory is_sector all_bytes
write_two = refl

read_sectors-write_sectors_example : read_sectors memory written 3 2 ≡ ok two_sectors
read_sectors-write_sectors_example =
    read_sectors-write_sectors memory memory-IsLawful 3 two_sectors small_sectors written
      (omega arith) write_two

read_sectors-outside_example :
    read_sectors memory written 5 4 ≡ read_sectors memory small_sectors 5 4
read_sectors-outside_example =
    read_sectors-outside memory memory-IsLawful 3 two_sectors 5 4 small_sectors written write_two
      (inr (omega arith))

abbrev two_bytes : List ℕ
two_bytes = 0xFF ∷ 0x09 ∷ []

two_bytes-IsBytes : IsBytes two_bytes
unfolding all_bytes
two_bytes-IsBytes = all_bytes-IsBytes two_bytes refl

bit_is_set-set_bit_example : bit_is_set (set_bit two_bytes 9) 11 ≡ true
bit_is_set-set_bit_example = bit_is_set-set_bit two_bytes 9 two_bytes-IsBytes (omega arith) 11

bit_is_set-clear_bit_example : bit_is_set (clear_bit two_bytes 8) 8 ≡ false
bit_is_set-clear_bit_example = bit_is_set-clear_bit two_bytes 8 two_bytes-IsBytes (omega arith) 8

found : get small_gdt 0 ≡ ok small_desc
unfolding get
found = refl

lower :
    adjust_free_blocks small_gdt 0 (minus 3)
    ≡ ok (record { groups = record small_desc { free_blocks_count = 17 } ∷ [] })
unfolding adjust_free_blocks get adjust
lower = refl

adjust_free_blocks-free_blocks_example :
    Moves
      (minus 3)
      (free_blocks small_gdt.groups)
      (free_blocks (record small_desc { free_blocks_count = 17 } ∷ []))
adjust_free_blocks-free_blocks_example =
    adjust_free_blocks-free_blocks small_gdt 0 (minus 3) {old = small_desc} found
      (omega arith, omega arith) lower

abbrev open_txn : Transaction
open_txn = record { sequence = 4; blocks = (2, 1 ∷ []) ∷ (3, 5 ∷ []) ∷ []; revoked = 9 ∷ [] }

pinned-pin_block_example :
    IsDeduplicated (pin_block 2 (8 ∷ []) open_txn).blocks
    × ((j : ℕ)
        → pinned (pin_block 2 (8 ∷ []) open_txn) j
          ≡ (if 2 == j then some (8 ∷ []) else pinned open_txn j))
    × ((pin_block 2 (8 ∷ []) open_txn).revoked ≡ open_txn.revoked)
pinned-pin_block_example = pinned-pin_block 2 (8 ∷ []) open_txn (((λ e. omega arith), tt), (tt, tt))

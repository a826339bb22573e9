-- ===== src/Tests/Allocating.antt =====
-- The allocator on the small image.
use pengwin.Base.{◌≡◌, refl, arith, done, fail, [], ◌∷◌}
use pengwin.Device.{read_loop, read_sectors, write_loop, write_sectors}
use pengwin.GroupDesc.{get, adjust, adjust_free_blocks}
use pengwin.Journal.Transaction.{upsert, pin_block}
use pengwin.WriteState.{WriteState, write_through, resize, copy_at}
use pengwin.Alloc.Bitmap.{is_allocated, set_bit, allocate, run_loop, first_free_run}
use pengwin.Alloc.Blocks.{
  patch_free_blocks, allocate_run, load_bitmap, flush_bitmap, update_gdt_free_blocks, take_run,
  take_found, try_group, alloc_loop, alloc_blocks,
}
use pengwin.Alloc.Blocks.Disjoint.{AreDisjoint, alloc_blocks-AreDisjoint}
use pengwin.Alloc.Bitmap.Runs.{IsFirstRun, first_free_run-IsFirstRun}
use pengwin.Alloc.Blocks.Search.{IsAllocation, alloc_blocks-IsAllocation}
use pengwin.Alloc.Bitmap.{clear_bit, free}
use pengwin.Journal.Transaction.{revoke_block}
use pengwin.Alloc.Blocks.{free_block}
use pengwin.Alloc.Blocks.Free.{IsFreed, free_block-IsFreed}
use pengwin.Alloc.Error.{double_freed}
use pengwin.Alloc.Blocks.Twice.{free_block-double_freed}
use pengwin.Tests.Memory.{memory, memory-IsLawful, read_memory, write_memory, is_sector, all_bytes}
use pengwin.Tests.Image.{small_sb, small_sb-IsValid, small, final}

abbrev once : WriteState memory
once = final (alloc_blocks memory small_sb 2 0 small) small

abbrev twice : WriteState memory
twice = final (alloc_blocks memory small_sb 3 0 once) once

first_call : alloc_blocks memory small_sb 2 0 small ≡ done 9 once
unfolding read_loop read_sectors write_loop write_sectors get adjust adjust_free_blocks upsert
    pin_block write_through resize copy_at is_allocated set_bit allocate run_loop first_free_run
    patch_free_blocks allocate_run load_bitmap flush_bitmap update_gdt_free_blocks take_run
    take_found try_group alloc_loop alloc_blocks read_memory write_memory is_sector all_bytes
first_call = refl

second_call : alloc_blocks memory small_sb 3 0 once ≡ done 12 twice
unfolding read_loop read_sectors write_loop write_sectors get adjust adjust_free_blocks upsert
    pin_block write_through resize copy_at is_allocated set_bit allocate run_loop first_free_run
    patch_free_blocks allocate_run load_bitmap flush_bitmap update_gdt_free_blocks take_run
    take_found try_group alloc_loop alloc_blocks read_memory write_memory is_sector all_bytes
second_call = refl

alloc_blocks-AreDisjoint_example : AreDisjoint 9 2 12 3
alloc_blocks-AreDisjoint_example =
    alloc_blocks-AreDisjoint memory memory-IsLawful small_sb small_sb-IsValid 2 3 0 0 small once
      twice (omega arith) (omega arith) (omega arith) (omega arith) first_call second_call

alloc_blocks-IsAllocation_example : IsAllocation memory small_sb 2 9 small once
alloc_blocks-IsAllocation_example =
    alloc_blocks-IsAllocation memory small_sb memory-IsLawful small_sb-IsValid 2 (omega arith) 0
      small first_call

first_free_run-IsFirstRun_example :
    IsFirstRun {E = Unit {0}} (0xFF ∷ 0x09 ∷ []) 2 12 (first_free_run (0xFF ∷ 0x09 ∷ []) 2 12)
first_free_run-IsFirstRun_example =
    first_free_run-IsFirstRun (Unit {0}) (0xFF ∷ 0x09 ∷ []) 2 12 (omega arith) (omega arith)

abbrev freed : WriteState memory
freed = final (free_block memory small_sb 11 small) small

free_eleven : free_block memory small_sb 11 small ≡ done tt freed
unfolding read_loop read_sectors write_loop write_sectors get adjust adjust_free_blocks upsert
    pin_block write_through resize copy_at is_allocated patch_free_blocks load_bitmap flush_bitmap
    update_gdt_free_blocks read_memory write_memory is_sector all_bytes clear_bit free revoke_block
    free_block
free_eleven = refl

free_block-IsFreed_example : IsFreed memory small_sb 11 small freed
free_block-IsFreed_example =
    free_block-IsFreed memory small_sb memory-IsLawful small_sb-IsValid 11 small freed free_eleven

free_block-double_freed_example : free_block memory small_sb 11 freed ≡ fail (double_freed 11) freed
free_block-double_freed_example =
    free_block-double_freed memory small_sb memory-IsLawful small_sb-IsValid 11 small freed
      free_eleven

-- ===== src/Alloc/Blocks/Twice.antt =====
-- A second `free_block` of a block in `ext4-core/src/alloc/block_alloc.rs`.
use pengwin.Base.{
  ℕ, ◌/◌, ◌%◌, ◌≡◌, refl, ◌∙◌, ap, lt→ltb, ==_self, ◌<◌, >>=-done, reads_ok, false, List, length,
  Outcome, ok, map_err, done, fail, reads,
}
use pengwin.Device.{BlockDevice, IsLawful, read_sectors}
use pengwin.Device.Transfer.{read_sectors-IsBytes}
use pengwin.Alloc.Bitmap.Laws.{bit_is_set-clear_bit, length-clear_bit}
use pengwin.Superblock.{Superblock}
use pengwin.Superblock.Valid.{IsValid}
use pengwin.GroupDesc
use pengwin.GroupDesc.{GroupDesc, plus, adjust}
use pengwin.GroupDesc.Counts.{adjust_free_blocks-IsUpdate}
use pengwin.WriteState.{WriteState, start_sector}
use pengwin.Alloc.Error.{AllocError, double_freed, group_desc, block_device}
use pengwin.Alloc.Bitmap.{bit_is_set, is_allocated, clear_bit, free}
use pengwin.Alloc.Blocks.{get_desc, load_bitmap, free_block}
use pengwin.Alloc.Blocks.Free.{IsFreed, free_block-IsFreed}

same_ok : {E A : Type 0} {m : Outcome E A} {a b : A} → m ≡ ok a → m ≡ ok b → a ≡ b
same_ok p q = cc

free_clear :
    (bitmap : List ℕ) (bit : ℕ)
    → bit_is_set bitmap bit ≡ false
    → bit / 8 < length bitmap
    → free {E = AllocError} bitmap bit ≡ ok (false, bitmap)
unfolding free is_allocated
free_clear bitmap bit h inside = rw (lt→ltb (bit / 8) (length bitmap) inside, h) refl

module _ (D : BlockDevice) (sb : Superblock) where
  load_again :
      (group : ℕ) (t : WriteState D) {desc : GroupDesc} {bitmap : List ℕ}
      → GroupDesc.get t.gdt group ≡ ok desc
      → read_sectors D t.dev (start_sector sb desc.block_bitmap) (sb.block_size / 512) ≡ ok bitmap
      → load_bitmap D sb group t ≡ done bitmap t
  unfolding load_bitmap
  load_again group t {desc} found stored =
      >>=-done (get_desc D sb group) _ t (
        reads_ok (λ (u : WriteState D). map_err group_desc (GroupDesc.get u.gdt group)) t
          (ap (map_err group_desc) found))
      ∙ reads_ok
          (λ (u : WriteState D).
            map_err block_device
              (read_sectors D u.dev (start_sector sb desc.block_bitmap) (sb.block_size / 512)))
          t (ap (map_err block_device) stored)

  -- The bit that `free_block` cleared is found clear, whatever the transaction.
  pub freed_again :
      IsLawful D
      → (block : ℕ) (s t : WriteState D) → IsFreed D sb block s t
      → free_block D sb block t ≡ fail (double_freed block) t
  unfolding free_block
  freed_again lawful block s t f =
      let group = block / sb.blocks_per_group in
      let bit = block % sb.blocks_per_group in
      let (old, update) = adjust_free_blocks-IsUpdate s.gdt group (plus 1) f.counted in
      let same_desc : old ≡ f.desc = same_ok update.old-eq f.found in
      let desc' = record old { free_blocks_count = adjust old.free_blocks_count (plus 1) } in
      let stored' : read_sectors D t.dev (start_sector sb desc'.block_bitmap) (sb.block_size / 512)
          ≡ ok (clear_bit f.bitmap bit) =
        rw same_desc f.stored in
      let bytes = read_sectors-IsBytes D lawful s.dev _ _ f.loaded in
      let clear : bit_is_set (clear_bit f.bitmap bit) bit ≡ false =
        rw (bit_is_set-clear_bit f.bitmap bit bytes f.inside bit, ==_self bit) refl in
      let not_taken : free {E = AllocError} (clear_bit f.bitmap bit) bit
          ≡ ok (false, clear_bit f.bitmap bit) =
        free_clear (clear_bit f.bitmap bit) bit clear
          (rw (length-clear_bit f.bitmap bit) f.inside) in
      let again = load_again group t update.new-eq stored' in
      let rest =
        >>=-done
          (reads {S = WriteState D} (λ _. free {E = AllocError} (clear_bit f.bitmap bit) bit)) _ t
          (reads_ok (λ (u : WriteState D). free {E = AllocError} (clear_bit f.bitmap bit) bit) t
            not_taken) in
      >>=-done (load_bitmap D sb group) _ t again ∙ rest

  -- On a lawful device with a valid superblock, a block that was just freed cannot be freed again:
  -- the second call reports it as double freed and leaves the device, the counters and the
  -- transaction as they are.
  pub free_block-double_freed :
      IsLawful D
      → IsValid sb
      → (block : ℕ) (s t : WriteState D) → free_block D sb block s ≡ done tt t
      → free_block D sb block t ≡ fail (double_freed block) t
  free_block-double_freed lawful valid block s t h =
      freed_again lawful block s t (free_block-IsFreed D sb lawful valid block s t h)

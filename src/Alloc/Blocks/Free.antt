-- ===== src/Alloc/Blocks/Free.antt =====
-- `free_block` of `ext4-core/src/alloc/block_alloc.rs`: what a successful call changes.
use pengwin.Base.{
  ℕ, ◌/◌, ◌%◌, ◌<◌, ◌≡◌, refl, sym, ◌∙◌, ap, Bool, true, false, List, length, ok, done, reads,
  reads-eq-done, >>=-eq-done, arith,
}
use pengwin.Device.{BlockDevice, IsLawful, read_sectors}
use pengwin.Device.Transfer.{length-read_sectors}
use pengwin.Superblock.{Superblock}
use pengwin.Superblock.Valid.{IsValid, block_size_facts}
use pengwin.GroupDesc
use pengwin.GroupDesc.{GroupDesc, plus}
use pengwin.Journal.Transaction
use pengwin.WriteState.{WriteState, start_sector, on_txn}
use pengwin.WriteState.Blocks.{read-write_block}
use pengwin.Alloc.Error.{AllocError}
use pengwin.Alloc.Bitmap.{bit_is_set, is_allocated, clear_bit, free}
use pengwin.Alloc.Bitmap.Laws.{length-clear_bit}
use pengwin.Alloc.Blocks.{
  load_bitmap, get_desc, flush_bitmap, ensure_taken, update_gdt_free_blocks, free_block,
}
use pengwin.Alloc.Blocks.Facts.{get_desc_facts, flush_bitmap_facts, update_gdt_facts}
use pengwin.Alloc.Blocks.Search.{load_bitmap_facts}

-- What `free` reports of a bit, and the bitmap that it leaves.
free_facts :
    (bitmap : List ℕ) (bit : ℕ) {was_taken : Bool} {cleared : List ℕ}
    → free {E = AllocError} bitmap bit ≡ ok (was_taken, cleared)
    → was_taken ≡ true
    → (bit_is_set bitmap bit ≡ true) × (cleared ≡ clear_bit bitmap bit) × (bit / 8 < length bitmap)
unfolding free is_allocated
free_facts bitmap bit h e = ground arith

module _ (D : BlockDevice) (sb : Superblock) where
  -- The block's bit was set and is cleared on the device; the group has one more free block.
  pub record IsFreed (block : ℕ) (s t : WriteState D) : Type 0 where
    pub desc : GroupDesc
    pub found : GroupDesc.get s.gdt (block / sb.blocks_per_group) ≡ ok desc
    pub bitmap : List ℕ
    pub loaded :
        read_sectors D s.dev (start_sector sb desc.block_bitmap) (sb.block_size / 512) ≡ ok bitmap
    pub inside : block % sb.blocks_per_group / 8 < length bitmap
    pub taken : bit_is_set bitmap (block % sb.blocks_per_group) ≡ true
    pub stored :
        read_sectors D t.dev (start_sector sb desc.block_bitmap) (sb.block_size / 512)
        ≡ ok (clear_bit bitmap (block % sb.blocks_per_group))
    pub counted :
        GroupDesc.adjust_free_blocks s.gdt (block / sb.blocks_per_group) (plus 1) ≡ ok t.gdt

  ensure_taken_facts :
      (was_taken : Bool) (block : ℕ) (s t : WriteState D)
      → ensure_taken D sb was_taken block s ≡ done tt t
      → (was_taken ≡ true) × (s ≡ t)
  ensure_taken_facts true block s t h = (refl, cc)
  ensure_taken_facts false block s t h = cc

  on_txn_facts :
      (f : Transaction.Transaction → Transaction.Transaction) (s t : WriteState D)
      → on_txn D {E = AllocError} f s ≡ done tt t
      → (t.dev ≡ s.dev) × (t.gdt ≡ s.gdt)
  on_txn_facts f s t h = ground arith

  -- On a lawful device with a valid superblock, a successful `free_block` is only of a block whose
  -- bit was set in the bitmap of its group; afterwards the device holds that bitmap with this bit
  -- cleared, and the group's free count, and no other descriptor, is raised by one.
  pub free_block-IsFreed :
      IsLawful D
      → IsValid sb
      → (block : ℕ) (s t : WriteState D) → free_block D sb block s ≡ done tt t
      → IsFreed block s t
  unfolding free_block
  free_block-IsFreed lawful valid block s t h =
      let group = block / sb.blocks_per_group in
      let bit = block % sb.blocks_per_group in
      let (bitmap, s₁, e₁, h₁) = >>=-eq-done (load_bitmap D sb group) _ s h in
      let (desc, found, loaded, same₁) = load_bitmap_facts D sb s group e₁ in
      let (r, s₂, e₂, h₂) = >>=-eq-done (reads (λ _. free bitmap bit)) _ s₁ h₁ in
      let (freed, same₂) = reads-eq-done (λ _. free bitmap bit) s₁ e₂ in
      let (_, s₃, e₃, h₃) = >>=-eq-done (ensure_taken D sb r.0 block) _ s₂ h₂ in
      let (was_taken, same₃) = ensure_taken_facts r.0 block s₂ s₃ e₃ in
      let (taken, cleared, inside) = free_facts bitmap bit freed was_taken in
      let (desc', s₄, e₄, h₄) = >>=-eq-done (get_desc D sb group) _ s₃ h₃ in
      let (found', same₄) = get_desc_facts D sb s₃ group e₄ in
      let (_, s₅, e₅, h₅) = >>=-eq-done (flush_bitmap D sb desc'.block_bitmap r.1) _ s₄ h₄ in
      let (wrote, same_gdt, _) = flush_bitmap_facts D sb s₄ desc'.block_bitmap r.1 e₅ in
      let (_, s₆, e₆, h₆) =
        >>=-eq-done (on_txn D {E = AllocError} (Transaction.revoke_block block))
          (λ _. update_gdt_free_blocks D sb group (plus 1)) s₅ h₅ in
      let (same_dev, counted) = update_gdt_facts D sb s₆ group (plus 1) h₆ in
      let same : s ≡ s₄ = same₁ ∙ same₂ ∙ same₃ ∙ same₄ in
      let same_desc : desc' ≡ desc = cc in
      let (whole, _, _) = block_size_facts valid in
      let size = length-read_sectors D lawful s.dev _ _ loaded in
      let size' : length r.1 ≡ sb.block_size =
        rw cleared (length-clear_bit bitmap bit ∙ size ∙ whole) in
      let kept =
        read-write_block D lawful sb valid (start_sector sb desc'.block_bitmap) r.1 s₄.dev s₅.dev
          size' wrote in
      let (dev₆, gdt₅) = on_txn_facts (Transaction.revoke_block block) s₅ s₆ e₆ in
      let gdt₆ : s₆.gdt ≡ s.gdt = gdt₅ ∙ same_gdt ∙ ap (λ (u : WriteState D). u.gdt) (sym same) in
      record {
        desc = desc;
        found = found;
        bitmap = bitmap;
        loaded = loaded;
        inside = inside;
        taken = taken;
        stored = rw (same_dev, dev₆, ← same_desc, ← cleared) kept;
        counted = rw gdt₆ at counted;
      }

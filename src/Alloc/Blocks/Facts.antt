-- ===== src/Alloc/Blocks/Facts.antt =====
-- What the steps of `alloc_blocks` and `free_block` in `ext4-core/src/alloc/block_alloc.rs` do to
-- the state when they succeed.
use pengwin.Base.{
  ℕ, ◌+◌, ◌*◌, ◌≡◌, List, ok, map_err, map_err-eq-ok, done, reads, reads-eq-done, >>=-eq-done,
  arith, u64,
}
use pengwin.Device.{BlockDevice, write_sectors}
use pengwin.Superblock.{Superblock}
use pengwin.GroupDesc
use pengwin.GroupDesc.{GroupDesc, Delta, minus}
use pengwin.Journal.Transaction
use pengwin.WriteState.{WriteState, start_sector, resize, write_through}
use pengwin.Alloc.Error.{AllocError, group_desc}
use pengwin.Alloc.Blocks.{allocate_run, get_desc, flush_bitmap, update_gdt_free_blocks, take_run}

module _ (D : BlockDevice) (sb : Superblock) where
  -- A step that wrote the run's bitmap and lowered the count of its group.
  pub record Took (group count start_bit : ℕ) (bitmap : List ℕ) (block : ℕ) (s t : WriteState D)
      : Type 0 where
    pub marked : List ℕ
    pub marking : allocate_run {E = AllocError} start_bit count bitmap ≡ ok marked
    pub desc : GroupDesc
    pub found : GroupDesc.get s.gdt group ≡ ok desc
    pub written :
        write_sectors D (start_sector sb desc.block_bitmap) (resize marked sb.block_size) s.dev
        ≡ done tt t.dev
    pub counted : GroupDesc.adjust_free_blocks s.gdt group (minus count) ≡ ok t.gdt
    pub address : block ≡ u64 (group * sb.blocks_per_group + start_bit)

  pub get_desc_facts :
      (s : WriteState D) (group : ℕ) {desc : GroupDesc} {t : WriteState D}
      → get_desc D sb group s ≡ done desc t
      → (GroupDesc.get s.gdt group ≡ ok desc) × (s ≡ t)
  get_desc_facts s group {desc} h =
      let (e, same) =
        reads-eq-done (λ (t : WriteState D). map_err group_desc (GroupDesc.get t.gdt group)) s h in
      (map_err-eq-ok group_desc _ e, same)

  pub flush_bitmap_facts :
      (s : WriteState D) (block : ℕ) (bytes : List ℕ) {t : WriteState D}
      → flush_bitmap D sb block bytes s ≡ done tt t
      → (write_sectors D (start_sector sb block) (resize bytes sb.block_size) s.dev ≡ done tt t.dev)
        × (t.gdt ≡ s.gdt)
        × (t.txn ≡ Transaction.pin_block block (resize bytes sb.block_size) s.txn)
  unfolding flush_bitmap write_through
  flush_bitmap_facts s block bytes {t} h = ground arith

  pub update_gdt_facts :
      (s : WriteState D) (group : ℕ) (delta : Delta) {t : WriteState D}
      → update_gdt_free_blocks D sb group delta s ≡ done tt t
      → (t.dev ≡ s.dev) × (GroupDesc.adjust_free_blocks s.gdt group delta ≡ ok t.gdt)
  unfolding update_gdt_free_blocks
  update_gdt_facts s group delta {t} h = ground arith

  pub take_run_facts :
      (s : WriteState D) (group count start_bit : ℕ) (bitmap : List ℕ) {block : ℕ}
      {t : WriteState D}
      → take_run D sb group count start_bit bitmap s ≡ done block t
      → Took group count start_bit bitmap block s t
  unfolding take_run
  take_run_facts s group count start_bit bitmap {block} {t} h =
      let (marked, s₁, e₁, h₁) =
        >>=-eq-done (reads (λ _. allocate_run start_bit count bitmap)) _ s h in
      let (marking, same₁) = reads-eq-done (λ _. allocate_run start_bit count bitmap) s e₁ in
      let (desc, s₂, e₂, h₂) = >>=-eq-done (get_desc D sb group) _ s₁ h₁ in
      let (_, s₃, e₃, h₃) = >>=-eq-done (flush_bitmap D sb desc.block_bitmap marked) _ s₂ h₂ in
      let (_, s₄, e₄, h₄) = >>=-eq-done (update_gdt_free_blocks D sb group (minus count)) _ s₃ h₃ in
      let (found, same₂) = get_desc_facts s₁ group e₂ in
      let (wrote, same_gdt, _) = flush_bitmap_facts s₂ desc.block_bitmap marked e₃ in
      let (same_dev, counted) = update_gdt_facts s₃ group (minus count) e₄ in
      record {
        marked = marked;
        marking = marking;
        desc = desc;
        found = cc;
        written = cc;
        counted = cc;
        address = cc;
      }

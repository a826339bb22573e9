-- ===== src/Alloc/Blocks/Search.antt =====
-- `alloc_blocks` of `ext4-core/src/alloc/block_alloc.rs`: what a successful call hands out.
use pengwin.Base.{
  ℕ, zero, suc, ◌+◌, ◌*◌, ◌/◌, ◌%◌, ◌≤◌, ◌<◌, ◌≡◌, refl, sym, ◌∙◌, inl, inr, Bool-cases,
  Option-cases, ltb, ltb-false, min, Option, none, some, List, length, ok, map_err, map_err-eq-ok,
  Run, done, reads, reads-eq-done, >>=-eq-done, arith, u64,
}
use mathlib.Core.Path.{subst}
use pengwin.WriteState.Blocks.{read-write_block}
use pengwin.Device.{BlockDevice, IsLawful, read_sectors}
use pengwin.Device.Transfer.{length-read_sectors, read_sectors-IsBytes}
use pengwin.Superblock.{Superblock}
use pengwin.Superblock.Valid.{IsValid, block_size_facts}
use pengwin.GroupDesc
use pengwin.GroupDesc.{GroupDesc, Delta, minus}
use pengwin.WriteState.{WriteState, start_sector}
use pengwin.Alloc.Error.{AllocError, block_device}
use pengwin.Alloc.Bitmap.{first_free_run}
use pengwin.Alloc.Bitmap.Runs.{IsFirstRun, first_free_run-IsFirstRun}
use pengwin.Alloc.Blocks.{
  load_bitmap, get_desc, take_run, take_found, try_group, alloc_loop, alloc_blocks,
}
use pengwin.Alloc.Blocks.Marks.{Marks, allocate_run-Marks}
use pengwin.Alloc.Blocks.Facts.{take_run_facts, get_desc_facts}

module _ (D : BlockDevice) (sb : Superblock) where
  -- The first run of `count` free bits of a group with enough free blocks is handed out: the
  -- device then holds the bitmap with exactly these bits turned on, and the group's count is lower.
  pub record IsAllocation (count block : ℕ) (s t : WriteState D) : Type 0 where
    pub group : ℕ
    pub group-lt : group < GroupDesc.group_count s.gdt
    pub start_bit : ℕ
    pub address : block ≡ u64 (group * sb.blocks_per_group + start_bit)
    pub desc : GroupDesc
    pub found : GroupDesc.get s.gdt group ≡ ok desc
    pub enough : count ≤ desc.free_blocks_count
    pub bitmap : List ℕ
    pub loaded :
        read_sectors D s.dev (start_sector sb desc.block_bitmap) (sb.block_size / 512) ≡ ok bitmap
    pub first :
        IsFirstRun {E = AllocError} bitmap count
          (min sb.blocks_per_group (length bitmap * 8))
          (ok (some start_bit))
    pub marked : List ℕ
    pub marks : Marks bitmap start_bit count marked
    pub stored :
        read_sectors D t.dev (start_sector sb desc.block_bitmap) (sb.block_size / 512) ≡ ok marked
    pub counted : GroupDesc.adjust_free_blocks s.gdt group (minus count) ≡ ok t.gdt

  pub load_bitmap_facts :
      (s : WriteState D) (group : ℕ) {bitmap : List ℕ} {t : WriteState D}
      → load_bitmap D sb group s ≡ done bitmap t
      → (desc : GroupDesc) × (GroupDesc.get s.gdt group ≡ ok desc)
        × (read_sectors D s.dev (start_sector sb desc.block_bitmap) (sb.block_size / 512)
            ≡ ok bitmap)
        × (s ≡ t)
  unfolding load_bitmap
  load_bitmap_facts s group h =
      let (desc, s₁, e₁, h₁) = >>=-eq-done (get_desc D sb group) _ s h in
      let (found, same₁) = get_desc_facts D sb s group e₁ in
      let (e₂, same₂) =
        reads-eq-done
          (λ (u : WriteState D).
            map_err block_device
              (read_sectors D u.dev (start_sector sb desc.block_bitmap) (sb.block_size / 512)))
          s₁ h₁ in
      (desc, found, rw (← same₁) at (map_err-eq-ok block_device _ e₂), same₁ ∙ same₂)

  -- A group that is passed over leaves the state as it was.
  abbrev Tried : ℕ → WriteState D → WriteState D → Option ℕ → Type 0
  Tried count s t none = s ≡ t
  Tried count s t (some block) = IsAllocation count block s t

  passed_over :
      (count : ℕ) (s s₁ : WriteState D) (found : Option ℕ) (t : WriteState D)
      → s ≡ s₁
      → ◌≡◌ {A = Run (WriteState D) AllocError (Option ℕ)} (done none s₁) (done found t)
      → Tried count s t found
  passed_over count s s₁ none t e h = cc
  passed_over count s s₁ (some b) t e h = cc

  handed_out :
      (count block : ℕ) (s s₁ : WriteState D) (found : Option ℕ) (t : WriteState D)
      → IsAllocation count block s s₁
      → ◌≡◌ {A = Run (WriteState D) AllocError (Option ℕ)} (done (some block) s₁) (done found t)
      → Tried count s t found
  handed_out count block s s₁ none t a h = absurd (cc)
  handed_out count block s s₁ (some b) t a h =
      let e : block ≡ b = cc in
      let e' : s₁ ≡ t = cc in
      subst (λ u. IsAllocation count b s u) e' (subst (λ k. IsAllocation count k s s₁) e a)

  module _ (lawful : IsLawful D) (valid : IsValid sb) (count : ℕ) (pos : 0 < count) where
    took-IsAllocation :
        (s : WriteState D) (group start_bit block : ℕ) (bitmap : List ℕ) {t : WriteState D}
        (desc : GroupDesc)
        → group < GroupDesc.group_count s.gdt
        → GroupDesc.get s.gdt group ≡ ok desc
        → count ≤ desc.free_blocks_count
        → read_sectors D s.dev (start_sector sb desc.block_bitmap) (sb.block_size / 512) ≡ ok bitmap
        → first_free_run {E = AllocError} bitmap count sb.blocks_per_group ≡ ok (some start_bit)
        → take_run D sb group count start_bit bitmap s ≡ done block t
        → IsAllocation count block s t
    took-IsAllocation s group start_bit block bitmap {t} desc inside found enough loaded run h =
        let took = take_run_facts D sb s group count start_bit bitmap h in
        let (whole, low, high) = block_size_facts valid in
        let size = length-read_sectors D lawful s.dev _ _ loaded in
        let bytes = read_sectors-IsBytes D lawful s.dev _ _ loaded in
        let first₀ =
          first_free_run-IsFirstRun AllocError bitmap count sb.blocks_per_group pos (omega arith) in
        let first = rw run at first₀ in
        let (marked, e, bytes', size', marks) =
          allocate_run-Marks AllocError count start_bit bitmap bytes (omega arith) in
        let same_desc : took.desc ≡ desc = cc (took.found) in
        let same_marked : took.marked ≡ marked = cc (took.marking) in
        record {
          group = group;
          group-lt = inside;
          start_bit = start_bit;
          address = took.address;
          desc = desc;
          found = found;
          enough = enough;
          bitmap = bitmap;
          loaded = loaded;
          first = first;
          marked = marked;
          marks = marks;
          stored = cc (
              read-write_block D lawful sb valid (start_sector sb took.desc.block_bitmap)
                took.marked s.dev t.dev (rw same_marked (size' ∙ size ∙ whole)) took.written);
          counted = took.counted;
        }

    -- The end of a turn, by what the search of the bitmap returned.
    searched :
        (s s₃ : WriteState D) (group : ℕ) (bitmap : List ℕ) (desc : GroupDesc) (run : Option ℕ)
        {found : Option ℕ} {t : WriteState D}
        → group < GroupDesc.group_count s.gdt
        → GroupDesc.get s.gdt group ≡ ok desc
        → count ≤ desc.free_blocks_count
        → read_sectors D s.dev (start_sector sb desc.block_bitmap) (sb.block_size / 512) ≡ ok bitmap
        → first_free_run {E = AllocError} bitmap count sb.blocks_per_group ≡ ok run
        → s ≡ s₃
        → take_found D sb count group bitmap run s₃ ≡ done found t
        → Tried count s t found
    unfolding take_found
    searched s s₃ group bitmap desc none {found} {t} inside got enough loaded ran same h =
        passed_over count s s₃ found t same h
    searched s s₃ group bitmap desc (some start_bit) {found} {t} inside got enough loaded ran same
          h =
        let (block, s₄, e, h') = >>=-eq-done (take_run D sb group count start_bit bitmap) _ s₃ h in
        let e' =
          subst (λ u. take_run D sb group count start_bit bitmap u ≡ done block s₄) (sym same) e in
        handed_out count block s s₄ found t
          (took-IsAllocation s group start_bit block bitmap desc inside got enough loaded ran e') h'

    try_group_facts :
        (s : WriteState D) (group : ℕ) {found : Option ℕ} {t : WriteState D}
        → group < GroupDesc.group_count s.gdt
        → try_group D sb count group s ≡ done found t
        → Tried count s t found
    unfolding try_group
    try_group_facts s group {found} {t} inside h =
        let (desc, s₁, e₁, h₁) = >>=-eq-done (get_desc D sb group) _ s h in
        let (got, same₁) = get_desc_facts D sb s group e₁ in
        elim (Bool-cases (ltb desc.free_blocks_count count)) [
          | inl low ↦ passed_over count s s₁ found t same₁ (rw low at h₁)
          | inr enough ↦
              let (bitmap, s₂, e₂, h₂) =
                >>=-eq-done (load_bitmap D sb group) _ s₁ (rw enough at h₁) in
              let (desc', got', loaded, same₂) = load_bitmap_facts s₁ group e₂ in
              let (run, s₃, e₃, h₃) =
                >>=-eq-done (reads (λ _. first_free_run bitmap count sb.blocks_per_group)) _ s₂
                  h₂ in
              let (ran, same₃) =
                reads-eq-done (λ _. first_free_run bitmap count sb.blocks_per_group) s₂ e₃ in
              searched s s₃ group bitmap desc run inside got (ltb-false _ _ enough) (cc) ran
                (same₁ ∙ same₂ ∙ same₃) h₃
        ]

    Tried-from :
        (s s₁ : WriteState D) {block : ℕ} {t : WriteState D}
        → s ≡ s₁
        → IsAllocation count block s₁ t
        → IsAllocation count block s t
    Tried-from s s₁ {block} {t} same a = subst (λ u. IsAllocation count block u t) (sym same) a

    alloc_loop-IsAllocation :
        (n i hint num : ℕ) (s : WriteState D) {block : ℕ} {t : WriteState D}
        → i + n ≡ num
        → num ≡ GroupDesc.group_count s.gdt
        → alloc_loop D sb count hint num i n s ≡ done block t
        → IsAllocation count block s t
    unfolding alloc_loop
    alloc_loop-IsAllocation zero i hint num s e size h = absurd (cc)
    alloc_loop-IsAllocation (suc n) i hint num s {block} {t} e size h =
        let (found, s₁, e₁, h₁) = >>=-eq-done (try_group D sb count ((hint + i) % num)) _ s h in
        let tried = try_group_facts s _ (omega arith) e₁ in
        elim (Option-cases found) [
          | inl passed ↦
              let same : s ≡ s₁ = rw passed at tried in
              Tried-from s s₁ same
                (alloc_loop-IsAllocation n (i + 1) hint num s₁ (omega arith) (cc) (rw passed at h₁))
          | inr (b, hit) ↦
              handed_out count b s s₁ (some block) t (rw hit at tried) (let h' = rw hit at h₁ in cc)
        ]

    -- On a lawful device with a valid superblock, a successful `alloc_blocks` of a positive count
    -- hands out the first free run of that length of some group of the table with enough free
    -- blocks; afterwards the device holds the group's bitmap with exactly these bits turned on,
    -- the group's free count is lower by the count, and no other descriptor has changed.
    pub alloc_blocks-IsAllocation :
        (hint_block : ℕ) (s : WriteState D) {block : ℕ} {t : WriteState D}
        → alloc_blocks D sb count hint_block s ≡ done block t
        → IsAllocation count block s t
    unfolding alloc_blocks
    alloc_blocks-IsAllocation hint_block s h =
        alloc_loop-IsAllocation (GroupDesc.group_count s.gdt) 0 _ (GroupDesc.group_count s.gdt) s
          (omega arith) refl h

-- ===== src/Fsp/Counts.antt =====
-- The counts that the callbacks of `pengwin/src/fsp_impl` save in the superblock, and the updates
-- of `ext4-core/src/group_desc.rs`.
use pengwin.Base.{
  ℕ, zero, suc, ◌+◌, ◌^◌, ◌≤◌, ◌<◌, ◌≡◌, arith, List, [], ◌∷◌, some, set, get_elem?, ok, >>=-eq-ok,
}
use pengwin.GroupDesc.{
  GroupDesc, GroupDescTable, Delta, plus, minus, adjust, adjust_free_blocks, get,
}
use pengwin.GroupDesc.Counts.{get_facts}
use pengwin.Fsp.Handles.{free_blocks}

-- A count that the delta takes neither below 0 nor past 32 bits.
abbrev pub Fits : Delta → ℕ → Type 0
Fits (plus n) count = count + n < 2 ^ 32
Fits (minus n) count = (n ≤ count) × (count < 2 ^ 32)

-- `after` is `before` with the delta.
abbrev pub Moves : Delta → ℕ → ℕ → Type 0
Moves (plus n) before after = after ≡ before + n
Moves (minus n) before after = after + n ≡ before

adjust-Moves :
    (delta : Delta) (count : ℕ) → Fits delta count → Moves delta count (adjust count delta)
unfolding adjust
adjust-Moves (plus n) count fits = ground arith
adjust-Moves (minus n) count fits = ground arith

-- What one descriptor gains or loses, the sum does.
free_blocks-set :
    (delta : Delta) (groups : List GroupDesc) (i : ℕ) (old new : GroupDesc)
    → get_elem? groups i ≡ some old
    → Moves delta old.free_blocks_count new.free_blocks_count
    → Moves delta (free_blocks groups) (free_blocks (set groups i new))
unfolding free_blocks
free_blocks-set delta [] i old new found moves = cc
free_blocks-set (plus n) (g ∷ groups) zero old new found moves =
    let same : g ≡ old = cc in rw same (omega arith)
free_blocks-set (minus n) (g ∷ groups) zero old new found moves =
    let same : g ≡ old = cc in rw same (omega arith)
free_blocks-set (plus n) (g ∷ groups) (suc i) old new found moves =
    omega (arith, free_blocks-set (plus n) groups i old new found moves)
free_blocks-set (minus n) (g ∷ groups) (suc i) old new found moves =
    omega (arith, free_blocks-set (minus n) groups i old new found moves)

-- Where the group's count neither falls below 0 nor leaves 32 bits, a successful
-- `adjust_free_blocks` changes the sum of the free blocks of all groups, which is what the
-- superblock is given, by exactly the delta.
pub adjust_free_blocks-free_blocks :
    (gdt : GroupDescTable) (group : ℕ) (delta : Delta) {old : GroupDesc} {after : GroupDescTable}
    → get gdt group ≡ ok old
    → Fits delta old.free_blocks_count
    → adjust_free_blocks gdt group delta ≡ ok after
    → Moves delta (free_blocks gdt.groups) (free_blocks after.groups)
unfolding adjust_free_blocks
adjust_free_blocks-free_blocks gdt group delta {old} {after} found fits h =
    let (desc, e, h₁) = >>=-eq-ok (get gdt group) _ h in
    let same : desc ≡ old = cc in
    let new : GroupDesc = record desc { free_blocks_count = adjust desc.free_blocks_count delta } in
    let e' : set gdt.groups group new ≡ after.groups = ground arith in
    rw (← e') (
      free_blocks-set delta gdt.groups group desc new (get_facts gdt group e)
        (adjust-Moves delta desc.free_blocks_count (rw same fits)))

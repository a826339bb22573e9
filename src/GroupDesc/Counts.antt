-- ===== src/GroupDesc/Counts.antt =====
-- The updates of `ext4-core/src/group_desc.rs` change one field of one descriptor.
use pengwin.Base.{
  ℕ, ◌≡◌, ◌≢◌, sym, some, get_elem?, set, length-set, get_elem?-set_self, get_elem?-set_ne,
  get_elem?_lt, Outcome, ok, >>=-eq-ok, arith,
}
use pengwin.GroupDesc.{
  GroupDesc, GroupDescTable, GroupDescError, Delta, adjust, adjust_free_blocks, get, group_count,
}

-- `after` is `before` with descriptor `group` replaced.
pub record IsUpdate (before : GroupDescTable) (group : ℕ) (old new : GroupDesc)
    (after : GroupDescTable) : Type 0 where
  pub old-eq : get before group ≡ ok old
  pub new-eq : get after group ≡ ok new
  pub others : (j : ℕ) → j ≢ group → get after j ≡ get before j
  pub same_count : group_count after ≡ group_count before

pub get_facts :
    (gdt : GroupDescTable) (i : ℕ) {desc : GroupDesc}
    → get gdt i ≡ ok desc
    → get_elem? gdt.groups i ≡ some desc
unfolding get
get_facts gdt i h = ground arith

set-IsUpdate :
    (gdt : GroupDescTable) (group : ℕ) (old new : GroupDesc) {after : GroupDescTable}
    → get gdt group ≡ ok old
    → ◌≡◌ {A = Outcome GroupDescError GroupDescTable}
        (ok (record { groups = set gdt.groups group new }))
        (ok after)
    → IsUpdate gdt group old new after
unfolding get
set-IsUpdate gdt group old new {after} found e =
    let e' : set gdt.groups group new ≡ after.groups = ground arith in
    let inside = get_elem?_lt gdt.groups group (get_facts gdt group found) in
    record {
      old-eq = found;
      new-eq = rw (← e', get_elem?-set_self gdt.groups group new inside);
      others = λ j ne. rw (
        ← e',
        get_elem?-set_ne gdt.groups group j new (λ q. ne (sym q)),
        length-set gdt.groups group new,
      );
      same_count = rw (← e', length-set gdt.groups group new);
    }

-- A successful `adjust_free_blocks` gives the group's free block count the delta, not below 0 and
-- cut to 32 bits, and changes no other field and no other descriptor.
pub adjust_free_blocks-IsUpdate :
    (gdt : GroupDescTable) (group : ℕ) (delta : Delta) {after : GroupDescTable}
    → adjust_free_blocks gdt group delta ≡ ok after
    → (old : GroupDesc) × IsUpdate gdt group old
        (record old { free_blocks_count = adjust old.free_blocks_count delta })
        after
unfolding adjust_free_blocks
adjust_free_blocks-IsUpdate gdt group delta h =
    let (old, found, e) = >>=-eq-ok (get gdt group) _ h in
    (old, set-IsUpdate gdt group old _ found e)

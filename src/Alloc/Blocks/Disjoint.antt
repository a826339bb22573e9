-- ===== src/Alloc/Blocks/Disjoint.antt =====
-- Two allocations in a row never hand out the same block.
use pengwin.Base.{
  ℕ, ◌+◌, ◌*◌, ◌^◌, ◌≤◌, ◌<◌, ◌≡◌, sym, ◌∙◌, ap, ◌⊎◌, inl, inr, Bool-cases, ltb, leb, leb→le,
  leb-false, ltb-false, ltb→lt, max, List, ok-injective, ok, done, arith,
}
use mathlib.Core.Path.{subst}
use pengwin.Device.{BlockDevice, IsLawful}
use pengwin.Superblock.{Superblock}
use pengwin.Superblock.Valid.{IsValid}
use pengwin.GroupDesc
use pengwin.GroupDesc.{GroupDesc, minus, max_groups}
use pengwin.GroupDesc.Counts.{adjust_free_blocks-IsUpdate}
use pengwin.WriteState.{WriteState}
use pengwin.Alloc.Bitmap.Runs.{IsFreeRun}
use pengwin.Alloc.Blocks.{alloc_blocks}
use pengwin.Alloc.Blocks.Marks.{Marks}
use pengwin.Alloc.Blocks.Search.{alloc_blocks-IsAllocation}

abbrev pub AreDisjoint : ℕ → ℕ → ℕ → ℕ → Type 0
AreDisjoint a m b n = (a + m ≤ b) ⊎ (b + n ≤ a)

-- A run that is free after another was marked does not meet it.
free_after-Marks :
    (bitmap marked : List ℕ) (a m b n : ℕ)
    → Marks bitmap a m marked
    → 0 < m
    → 0 < n
    → IsFreeRun marked b n
    → AreDisjoint a m b n
free_after-Marks bitmap marked a m b n marks pos pos' run = elim (Bool-cases (leb (a + m) b)) [
  | inl before ↦ inl (leb→le _ _ before)
  | inr p ↦ elim (Bool-cases (leb (b + n) a)) [
    | inl after ↦ inr (leb→le _ _ after)
    | inr q ↦
        let p' = leb-false _ _ p in
        let q' = leb-false _ _ q in
        let f = run (max a b) (omega arith) (omega arith) in
        let m' = marks (max a b) in absurd (ground arith)
  ]
]

-- Blocks of different groups are apart.
group_apart : (g h bpg a m b n : ℕ) → g < h → a + m ≤ bpg → g * bpg + a + m ≤ h * bpg + b
group_apart g h bpg a m b n lt fits = grind arith

in_range : (g bpg a : ℕ) → g < 2 ^ 21 → bpg < 2 ^ 32 → a < bpg → g * bpg + a < 2 ^ 64
in_range g bpg a hg hb ha = let m : g * bpg ≤ 2097152 * bpg = grind arith in omega arith

module _ (D : BlockDevice) (lawful : IsLawful D) (sb : Superblock) (valid : IsValid sb) where
  -- On a lawful device with at most 2 ^ 21 groups of fewer than 2 ^ 32 blocks, two successful
  -- allocations in a row of `m` and `n` blocks (both positive), at any hints, hand out ranges that
  -- do not meet.
  pub alloc_blocks-AreDisjoint :
      (m n hint hint' : ℕ) (s t u : WriteState D) {a b : ℕ}
      → 0 < m
      → 0 < n
      → sb.blocks_per_group < 2 ^ 32
      → GroupDesc.group_count s.gdt ≤ max_groups
      → alloc_blocks D sb m hint s ≡ done a t
      → alloc_blocks D sb n hint' t ≡ done b u
      → AreDisjoint a m b n
  alloc_blocks-AreDisjoint m n hint hint' s t u {a} {b} pos pos' small groups h h' =
      let p = alloc_blocks-IsAllocation D sb lawful valid m pos hint s h in
      let q = alloc_blocks-IsAllocation D sb lawful valid n pos' hint' t h' in
      let (old, update) = adjust_free_blocks-IsUpdate s.gdt p.group (minus m) p.counted in
      let size = update.same_count in
      let p_in =
        in_range p.group sb.blocks_per_group p.start_bit (omega (arith, p.group-lt)) small
          (omega (arith, p.first.0)) in
      let q_in =
        in_range q.group sb.blocks_per_group q.start_bit (omega (arith, q.group-lt)) small
          (omega (arith, q.first.0)) in
      let a_eq : a ≡ p.group * sb.blocks_per_group + p.start_bit = omega (arith, p.address) in
      let b_eq : b ≡ q.group * sb.blocks_per_group + q.start_bit = omega (arith, q.address) in
      elim (Bool-cases (ltb p.group q.group)) [
        | inl lower ↦
            let far =
              group_apart p.group q.group sb.blocks_per_group p.start_bit m q.start_bit n
                (ltb→lt _ _ lower) (omega (arith, p.first.0)) in
            inl (omega arith)
        | inr ge ↦ elim (Bool-cases (ltb q.group p.group)) [
          | inl higher ↦
              let far =
                group_apart q.group p.group sb.blocks_per_group q.start_bit n p.start_bit m
                  (ltb→lt _ _ higher) (omega (arith, q.first.0)) in
              inr (omega arith)
          | inr le ↦
              let same : p.group ≡ q.group = omega (arith, ltb-false _ _ ge, ltb-false _ _ le) in
              let d₁ : p.desc ≡ old = cc (p.found, update.old-eq) in
              let found : GroupDesc.get t.gdt p.group ≡ ok q.desc = rw same q.found in
              let d₂ = ok-injective (sym found ∙ update.new-eq) in
              let at : q.desc.block_bitmap ≡ p.desc.block_bitmap =
                ap (λ (d : GroupDesc). d.block_bitmap) d₂
                ∙ sym (ap (λ (d : GroupDesc). d.block_bitmap) d₁) in
              let again = rw at at q.loaded in
              let same_bitmap : q.bitmap ≡ p.marked = ok-injective (sym again ∙ p.stored) in
              let run = subst (λ bm. IsFreeRun bm q.start_bit n) same_bitmap q.first.1 in
              let apart =
                free_after-Marks p.bitmap p.marked p.start_bit m q.start_bit n p.marks pos pos'
                  run in
              let e : p.group * sb.blocks_per_group ≡ q.group * sb.blocks_per_group = rw same in
              omega arith
        ]
      ]

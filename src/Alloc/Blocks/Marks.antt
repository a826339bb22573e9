-- ===== src/Alloc/Blocks/Marks.antt =====
-- The bits that `alloc_blocks` marks, and what its parts leave behind.
use pengwin.Base.{
  ℕ, zero, suc, ◌+◌, ◌*◌, ◌/◌, ◌≤◌, ◌<◌, ◌≡◌, refl, ◌∙◌, inl, inr, Bool, true, false, ◌&&◌, ltb,
  leb, ◌==◌, lt→ltb, if◌then◌else◌, Bool-cases, List, length, IsBytes, ok, arith,
}
use pengwin.Alloc.Bitmap.{bit_is_set, is_allocated, allocate, set_bit}
use pengwin.Alloc.Bitmap.Laws.{bit_is_set-set_bit, set_bit-IsBytes, length-set_bit}
use pengwin.Alloc.Blocks.{allocate_run}

-- Exactly the bits from `start` up to `start + count` were turned on.
abbrev pub Marks : List ℕ → ℕ → ℕ → List ℕ → Type 0
Marks bitmap start count marked =
    (j : ℕ)
    → bit_is_set marked j
      ≡ (if leb start j && ltb j (start + count) then true else bit_is_set bitmap j)

module _ (E : Type 0) where
  allocate_marks :
      (bitmap : List ℕ) (i : ℕ)
      → IsBytes bitmap
      → i / 8 < length bitmap
      → (flag : Bool) × (marked : List ℕ) × (allocate {E = E} bitmap i ≡ ok (flag, marked))
        × IsBytes marked
        × (length marked ≡ length bitmap)
        × ((j : ℕ) → bit_is_set marked j ≡ (if i == j then true else bit_is_set bitmap j))
  unfolding allocate is_allocated
  allocate_marks bitmap i bytes inside = elim (Bool-cases (bit_is_set bitmap i)) [
    | inl taken ↦
        (false, bitmap, rw (lt→ltb _ _ inside, taken), bytes, refl, λ j. ground (arith, taken))
    | inr is_free ↦ (
      true,
      set_bit bitmap i,
      rw (lt→ltb _ _ inside, is_free),
      set_bit-IsBytes bitmap i bytes,
      length-set_bit bitmap i,
      bit_is_set-set_bit bitmap i bytes inside,
    )
  ]

  -- `allocate_run` inside the bitmap does not panic, keeps its size, and marks the run.
  pub allocate_run-Marks :
      (n start : ℕ) (bitmap : List ℕ)
      → IsBytes bitmap
      → start + n ≤ length bitmap * 8
      → (marked : List ℕ) × (allocate_run {E = E} start n bitmap ≡ ok marked)
        × IsBytes marked
        × (length marked ≡ length bitmap)
        × Marks bitmap start n marked
  unfolding allocate_run
  allocate_run-Marks zero start bitmap bytes inside = (bitmap, refl, bytes, refl, λ j. ground arith)
  allocate_run-Marks (suc n) start bitmap bytes inside =
      let (flag, one, e, bytes₁, len₁, bits₁) = allocate_marks bitmap start bytes (omega arith) in
      let (marked, e', bytes', len', bits') =
        allocate_run-Marks n (start + 1) one bytes₁ (omega (arith, len₁)) in
      (marked, rw e e', bytes', len' ∙ len₁, λ j. ground (arith, bits' j, bits₁ j))

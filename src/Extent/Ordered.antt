-- ===== src/Extent/Ordered.antt =====
-- On leaves in order, the binary search of `file.rs` finds what the scan of `journal/mod.rs` does.
use pengwin.Base.{
  ℕ, zero, suc, ◌+◌, ◌-◌, ◌^◌, ◌≤◌, ◌<◌, ◌≡◌, refl, sym, ◌∙◌, inl, inr, ◌⊎◌, true, false, ltb, leb,
  leb→le, leb-false, if◌then◌else◌, Bool-cases, none, some, List, [], ◌∷◌, get_elem?, arith,
}
use pengwin.Extent.{ExtentLeaf, covers}
use pengwin.Extent.Leaves.{find_phys, partition_point, resolve_in, resolve_lblock}

-- The number of blocks of an extent: a length above 32768 marks it as uninitialized.
abbrev pub leaf_len : ExtentLeaf → ℕ
leaf_len l = if ltb 32768 l.ee_len then l.ee_len - 32768 else l.ee_len

-- The fields have their widths.
abbrev pub IsWide : ExtentLeaf → Type 0
IsWide l = (l.ee_start_hi < 2 ^ 16) × (l.ee_start_lo < 2 ^ 32)

abbrev pub StartsFrom : ℕ → List ExtentLeaf → Type 0
StartsFrom k [] = Unit
StartsFrom k (l ∷ rest) = (k ≤ l.ee_block) × StartsFrom k rest

-- Each extent ends before the later ones start.
abbrev pub IsOrdered : List ExtentLeaf → Type 0
IsOrdered [] = Unit
IsOrdered (l ∷ rest) =
    IsWide l × (l.ee_block < 2 ^ 32) × StartsFrom (l.ee_block + leaf_len l) rest × IsOrdered rest

StartsFrom-le :
    (k j : ℕ) (leaves : List ExtentLeaf) → j ≤ k → StartsFrom k leaves → StartsFrom j leaves
StartsFrom-le k j [] le h = tt
StartsFrom-le k j (l ∷ rest) le h = (omega arith, StartsFrom-le k j rest le h.1)

-- No extent that starts after the block covers it.
pub find_phys-StartsFrom :
    (k lblock : ℕ) (leaves : List ExtentLeaf)
    → lblock < k
    → StartsFrom k leaves
    → find_phys leaves lblock ≡ none
unfolding find_phys
find_phys-StartsFrom k lblock [] lt h = refl
find_phys-StartsFrom k lblock (l ∷ rest) lt h =
    ground (arith, find_phys-StartsFrom k lblock rest lt h.1)

-- An extent's own part of the two searches.
pub find_phys-cons_miss :
    (l : ExtentLeaf) (rest : List ExtentLeaf) (lblock : ℕ)
    → covers l lblock ≡ false
    → find_phys (l ∷ rest) lblock ≡ find_phys rest lblock
unfolding find_phys
find_phys-cons_miss l rest lblock miss = rw miss

resolve_in-find_phys :
    (l : ExtentLeaf) (rest : List ExtentLeaf) (lblock : ℕ)
    → IsWide l
    → lblock < 2 ^ 63
    → l.ee_block ≤ lblock
    → find_phys rest lblock ≡ none
    → resolve_in (some l) lblock ≡ find_phys (l ∷ rest) lblock
unfolding find_phys
resolve_in-find_phys l rest lblock wide small le none_later = ground arith

-- A block of a later extent is past the end of the first.
past_end :
    (l : ExtentLeaf) (rest : List ExtentLeaf) (lblock k : ℕ)
    → StartsFrom (l.ee_block + leaf_len l) rest
    → partition_point rest lblock ≡ suc k
    → covers l lblock ≡ false
unfolding partition_point
past_end l [] lblock k h e = absurd (omega (arith, e))
past_end l (m ∷ rest) lblock k h e = ground arith

first_later :
    (rest : List ExtentLeaf) (lblock : ℕ)
    → IsOrdered rest
    → partition_point rest lblock ≡ 0
    → find_phys rest lblock ≡ none
unfolding partition_point
first_later [] lblock ordered e = unfold find_phys in refl
first_later (m ∷ rest) lblock ordered e =
    let lt : lblock < m.ee_block = ground arith in
    let miss : covers m lblock ≡ false = ground arith in
    find_phys-cons_miss m rest lblock miss
    ∙ find_phys-StartsFrom (m.ee_block + leaf_len m) lblock rest (omega arith) ordered.2

ℕ-cases : (n : ℕ) → (n ≡ 0) ⊎ ((k : ℕ) × (n ≡ suc k))
ℕ-cases zero = inl refl
ℕ-cases (suc k) = inr (k, refl)

-- One step of the binary search from the left.
resolve_lblock-cons :
    (l : ExtentLeaf) (rest : List ExtentLeaf) (lblock n : ℕ)
    → partition_point rest lblock ≡ n
    → leb l.ee_block lblock ≡ true
    → resolve_lblock (l ∷ rest) lblock ≡ resolve_in (get_elem? (l ∷ rest) n) lblock
unfolding resolve_lblock partition_point
resolve_lblock-cons l rest lblock n e before = rw (before, e)

resolve_lblock-tail :
    (rest : List ExtentLeaf) (lblock k : ℕ)
    → partition_point rest lblock ≡ suc k
    → resolve_lblock rest lblock ≡ resolve_in (get_elem? rest k) lblock
unfolding resolve_lblock
resolve_lblock-tail rest lblock k e = rw e

resolve_lblock-before :
    (l : ExtentLeaf) (rest : List ExtentLeaf) (lblock : ℕ)
    → leb l.ee_block lblock ≡ false
    → resolve_lblock (l ∷ rest) lblock ≡ none
unfolding resolve_lblock partition_point
resolve_lblock-before l rest lblock after = rw after

-- On extents in order that do not overlap, with fields of their widths, and for a block number
-- below 2 ^ 63, the binary search of the file reader gives the same block as the linear search of
-- the journal.
pub resolve_lblock-find_phys :
    (leaves : List ExtentLeaf) (lblock : ℕ)
    → IsOrdered leaves
    → lblock < 2 ^ 63
    → resolve_lblock leaves lblock ≡ find_phys leaves lblock
resolve_lblock-find_phys [] lblock ordered small =
    unfold resolve_lblock partition_point find_phys in refl
resolve_lblock-find_phys (l ∷ rest) lblock ordered small =
    elim (Bool-cases (leb l.ee_block lblock)) [
      | inr after ↦
          let lt = leb-false _ _ after in
          resolve_lblock-before l rest lblock after
          ∙ sym (
              find_phys-StartsFrom l.ee_block lblock (l ∷ rest) lt (
                omega arith,
                StartsFrom-le (l.ee_block + leaf_len l) l.ee_block rest (omega arith) ordered.2,
              ))
      | inl before ↦ elim (ℕ-cases (partition_point rest lblock)) [
        | inl none_later ↦
            resolve_lblock-cons l rest lblock 0 none_later before
            ∙ resolve_in-find_phys l rest lblock ordered.0 small (leb→le _ _ before)
                (first_later rest lblock ordered.3 none_later)
        | inr (k, later) ↦
            resolve_lblock-cons l rest lblock (suc k) later before
            ∙ sym (resolve_lblock-tail rest lblock k later)
            ∙ resolve_lblock-find_phys rest lblock ordered.3 small
            ∙ sym (find_phys-cons_miss l rest lblock (past_end l rest lblock k ordered.2 later))
      ]
    ]

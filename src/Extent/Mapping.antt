-- ===== src/Extent/Mapping.antt =====
-- The search of a leaf node in `ext4-core/src/extent.rs`.
use pengwin.Base.{ℕ, ◌+◌, ◌-◌, ◌≤◌, ◌<◌, ◌≡◌, true, false, Option, none, some, List, Outcome, ok}
use pengwin.Extent.{ExtentError, leaf_at, leaf_start, covers}

-- Among the entries from `i` up to `i + n`: the block of the first one that covers `lblock`, or
-- nothing if none does.
abbrev pub IsMapping : List ℕ → ℕ → ℕ → ℕ → Outcome ExtentError (Option ℕ) → Type 0
IsMapping node lblock i n (ok (some phys)) =
    (j : ℕ) × (i ≤ j)
    × (j < i + n)
    × (covers (leaf_at node j) lblock ≡ true)
    × (phys ≡ leaf_start (leaf_at node j) + (lblock - (leaf_at node j).ee_block))
    × ((k : ℕ) → i ≤ k → k < j → covers (leaf_at node k) lblock ≡ false)
IsMapping node lblock i n (ok none) =
    (k : ℕ) → i ≤ k → k < i + n → covers (leaf_at node k) lblock ≡ false
IsMapping node lblock i n _ = ⊥

-- ===== src/Extent/Write/Nodes/Coalesce.antt =====
-- The last leaf of a node made longer in place, by `ext4-core/src/extent_write.rs`.
use pengwin.Base.{
  ℕ, suc, ◌+◌, ◌-◌, ◌*◌, ◌^◌, ◌≤◌, ◌<◌, ◌≡◌, refl, ◌∙◌, inl, inr, arith, ◌||◌, true, ltb, leb,
  ltb-false, ◌==◌, ==_false, Bool-cases, List, [], ◌∷◌, ◌++◌, length, splice, ok, >>=-eq-ok, assert,
  u16_le, bytes_u16_le, u16_le-splice, u32_le-splice, u16_le-splice_self,
}
use mathlib.Core.Path.{subst}
use pengwin.WriteState.{copy_at}
use pengwin.Extent.{ExtentLeaf, read_header, leaf_at, leaf_start}
use pengwin.Extent.Leaves.{push_leaves}
use pengwin.Extent.Write.{ExtentWriteError}
use pengwin.Extent.Write.Nodes.{coalesce_leaf_in_buf, coalesce_last, max_extent_len, leaf_in}
use pengwin.Extent.Write.Nodes.Entries.{
  copy_at-eq-ok, leaf_at-splice, push_leaves-snoc, push_leaves-congruent,
}

-- A new length in entry `i` changes no other field of it.
leaf_at-set_len :
    (node : List ℕ) (i len : ℕ)
    → len < 2 ^ 16
    → 12 + i * 12 + 12 ≤ length node
    → leaf_at (splice node (12 + i * 12 + 4) (bytes_u16_le len)) i
      ≡ record (leaf_at node i) { ee_len = len }
unfolding leaf_at
leaf_at-set_len node i len small inside =
    let off = 12 + i * 12 in
    let ys = bytes_u16_le len in
    let e₁ = u32_le-splice node (off + 4) ys off (inl (omega arith)) in
    let e₂ : u16_le (splice node (off + 4) ys) (off + 4) ≡ len =
      u16_le-splice_self node (off + 4) len (omega arith) ∙ omega arith in
    let e₃ = u16_le-splice node (off + 4) ys (off + 6) (inr (omega arith)) in
    let e₄ = u32_le-splice node (off + 4) ys (off + 8) (inr (omega arith)) in
    λ k. record { ee_block = e₁ k; ee_len = e₂ k; ee_start_hi = e₃ k; ee_start_lo = e₄ k }

read_header-splice :
    (node : List ℕ) (p : ℕ) (ys : List ℕ)
    → 12 ≤ p
    → read_header (splice node p ys) ≡ read_header node
read_header-splice node p ys h =
    let e₁ = u16_le-splice node p ys 0 (inl (omega arith)) in
    let e₂ = u16_le-splice node p ys 2 (inl (omega arith)) in
    let e₃ = u16_le-splice node p ys 4 (inl (omega arith)) in
    let e₄ = u16_le-splice node p ys 6 (inl (omega arith)) in
    let e₅ = u32_le-splice node p ys 8 (inl (omega arith)) in
    λ k. record {
      eh_magic = e₁ k;
      eh_entries = e₂ k;
      eh_max = e₃ k;
      eh_depth = e₄ k;
      eh_generation = e₅ k;
    }

-- When the answer is yes.
coalesce_leaf_in_buf_facts :
    (buf : List ℕ) (off : ℕ) (leaf : ExtentLeaf) (phys_start count : ℕ) {buf' : List ℕ}
    → coalesce_leaf_in_buf buf off leaf phys_start count ≡ ok (true, buf')
    → (0 < leaf.ee_len)
      × (leaf.ee_len + count ≤ max_extent_len)
      × (leaf_start leaf + leaf.ee_len ≡ phys_start)
      × (buf' ≡ splice buf (off + 4) (bytes_u16_le (leaf.ee_len + count)))
unfolding coalesce_leaf_in_buf
coalesce_leaf_in_buf_facts buf off leaf phys_start count {buf'} h =
    elim (Bool-cases (leaf.ee_len == 0 || ltb max_extent_len leaf.ee_len)) [
      | inl never ↦ let h' = rw never at h in cc
      | inr initialized ↦ elim (Bool-cases (leaf_start leaf + leaf.ee_len == phys_start)) [
        | inr apart ↦ let h' = rw (initialized, apart) at h in cc
        | inl next ↦ elim (Bool-cases (ltb max_extent_len (leaf.ee_len + count))) [
          | inl over ↦ let h' = rw (initialized, next, over) at h in cc
          | inr fits ↦
              let h₁ = rw (initialized, next, fits) at h in
              let (b, e, h₂) =
                >>=-eq-ok
                  (copy_at {E = ExtentWriteError} buf (off + 4)
                    (bytes_u16_le (leaf.ee_len + count)))
                  _ h₁ in
              let (_, p) = copy_at-eq-ok buf (off + 4) _ e in
              (ground arith, ltb-false _ _ fits, ground arith, cc)
        ]
      ]
    ]

-- A node whose last leaf is made longer for `block_count` blocks from `phys_start` lists the same
-- leaves before it and then that leaf with the sum of the lengths. The blocks follow those of the
-- leaf on the device, the sum is 32768 at most, so that it does not mark the leaf uninitialized,
-- and the header is not changed.
pub coalesce_last-bounds :
    (node : List ℕ) (entries phys_start block_count : ℕ) {node' : List ℕ}
    → coalesce_last node entries phys_start block_count ≡ ok (true, node')
    → (front : List ExtentLeaf) × (leaf : ExtentLeaf) × (push_leaves node 0 entries []
        ≡ front ++ leaf ∷ [])
      × (push_leaves node' 0 entries []
          ≡ front ++ record leaf { ee_len = leaf.ee_len + block_count } ∷ [])
      × (leaf_start leaf + leaf.ee_len ≡ phys_start)
      × (leaf.ee_len + block_count ≤ max_extent_len)
      × (read_header node' ≡ read_header node)
unfolding coalesce_last
coalesce_last-bounds node entries phys_start block_count {node'} h =
    elim (Bool-cases (entries == 0)) [
      | inl empty ↦ let h' = rw (coalesce_last, empty) at h in cc
      | inr some_leaf ↦
          let n = entries - 1 in
          let positive = ==_false entries 0 some_leaf in
          let whole : suc n ≡ entries = omega arith in
          let (leaf, e₁, h₁) =
            >>=-eq-ok (leaf_in {E = ExtentWriteError} node n) _
              (rw (coalesce_last, some_leaf) at h) in
          let (_, e₂, e₃) =
            >>=-eq-ok (assert {E = ExtentWriteError} (leb (12 + n * 12 + 12) (length node))) _ e₁ in
          let inside : 12 + n * 12 + 12 ≤ length node = ground arith in
          let same : leaf_at node n ≡ leaf = cc in
          let (positive_len, small, next, p) =
            coalesce_leaf_in_buf_facts node (12 + n * 12) leaf phys_start block_count h₁ in
          let ys = bytes_u16_le (leaf.ee_len + block_count) in
          let last : leaf_at node' n ≡ record leaf { ee_len = leaf.ee_len + block_count } =
            rw p (leaf_at-set_len node n (leaf.ee_len + block_count) (omega arith) inside)
            ∙ (λ k. record (same k) { ee_len = leaf.ee_len + block_count }) in
          let old : (j : ℕ) → j < 0 + n → leaf_at node' j ≡ leaf_at node j =
            λ j lt. rw p (leaf_at-splice node (12 + n * 12 + 4) ys j (inl (omega arith))) in
          let front = push_leaves node 0 n [] in
          let longer = record leaf { ee_len = leaf.ee_len + block_count } in
          let from_0 : 0 + n ≡ n = omega arith in
          let before : push_leaves node 0 (suc n) [] ≡ front ++ leaf ∷ [] =
            rw (push_leaves-snoc node 0 n [], from_0, same) refl in
          let after : push_leaves node' 0 (suc n) [] ≡ front ++ longer ∷ [] =
            rw
              (
                push_leaves-snoc node' 0 n [],
                push_leaves-congruent node node' 0 n [] old,
                from_0,
                last,
              )
              refl in
          (
            front,
            leaf,
            subst (λ z. push_leaves node 0 z [] ≡ front ++ leaf ∷ []) whole before,
            subst (λ z. push_leaves node' 0 z [] ≡ front ++ longer ∷ []) whole after,
            next,
            small,
            rw p (read_header-splice node (12 + n * 12 + 4) ys (omega arith)),
          )
    ]

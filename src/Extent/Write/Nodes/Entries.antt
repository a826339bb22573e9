-- ===== src/Extent/Write/Nodes/Entries.antt =====
-- Entries written to a node by `ext4-core/src/extent_write.rs` and read back by `extent.rs`.
use pengwin.Base.{
  ℕ, zero, suc, ◌+◌, ◌*◌, ◌^◌, ◌≤◌, ◌<◌, ◌≡◌, Apart, refl, ◌∙◌, inl, inr, arith, List, [], ◌∷◌,
  ◌++◌, length, splice, length-splice, ok, >>=-eq-ok, leb, leb→le, Bool-cases, u16_le, u32_le,
  u16_le-splice, u32_le-splice, u16_le-splice_in, u32_le-splice_in, u32_le-splice_start,
}
use pengwin.WriteState.{copy_at}
use pengwin.Extent.{ExtentHeader, ExtentLeaf, read_header, leaf_at}
use pengwin.Extent.Leaves.{push_leaves}
use pengwin.Extent.Write.{ExtentWriteError}
use pengwin.Extent.Write.Nodes.{make_header, header_bytes, leaf_bytes, push_entry}

-- The fields have their widths.
abbrev pub IsLeaf : ExtentLeaf → Type 0
IsLeaf l =
    (l.ee_block < 2 ^ 32)
    × (l.ee_len < 2 ^ 16)
    × (l.ee_start_hi < 2 ^ 16)
    × (l.ee_start_lo < 2 ^ 32)

abbrev pub IsHeader : ExtentHeader → Type 0
IsHeader h =
    (h.eh_magic < 2 ^ 16)
    × (h.eh_entries < 2 ^ 16)
    × (h.eh_max < 2 ^ 16)
    × (h.eh_depth < 2 ^ 16)
    × (h.eh_generation < 2 ^ 32)

pub copy_at-eq-ok {ℓ} :
    {E : Type ℓ} (bytes : List ℕ) (off : ℕ) (src : List ℕ) {out : List ℕ}
    → copy_at {E = E} bytes off src ≡ ok out
    → (off + length src ≤ length bytes) × (out ≡ splice bytes off src)
unfolding copy_at
copy_at-eq-ok bytes off src h = elim (Bool-cases (leb (off + length src) (length bytes))) [
  | inl inside ↦ let h' = rw inside at h in (leb→le _ _ inside, cc)
  | inr outside ↦ let h' = rw outside at h in cc
]

pub leaf_at-splice_self :
    (node : List ℕ) (i : ℕ) (l : ExtentLeaf)
    → IsLeaf l
    → 12 + i * 12 + 12 ≤ length node
    → leaf_at (splice node (12 + i * 12) (leaf_bytes l)) i ≡ l
unfolding leaf_at leaf_bytes
leaf_at-splice_self node i l (a, b, c, d) inside =
    let off = 12 + i * 12 in
    let bytes = leaf_bytes l in
    let e₁ : u32_le (splice node off bytes) off ≡ l.ee_block =
      u32_le-splice_start node off bytes (omega arith) (omega arith) ∙ omega arith in
    let e₂ : u16_le (splice node off bytes) (off + 4) ≡ l.ee_len =
      u16_le-splice_in node off bytes (omega arith) 4 (omega arith) ∙ omega arith in
    let e₃ : u16_le (splice node off bytes) (off + 6) ≡ l.ee_start_hi =
      u16_le-splice_in node off bytes (omega arith) 6 (omega arith) ∙ omega arith in
    let e₄ : u32_le (splice node off bytes) (off + 8) ≡ l.ee_start_lo =
      u32_le-splice_in node off bytes (omega arith) 8 (omega arith) ∙ omega arith in
    λ k. record { ee_block = e₁ k; ee_len = e₂ k; ee_start_hi = e₃ k; ee_start_lo = e₄ k }

pub leaf_at-splice :
    (node : List ℕ) (p : ℕ) (ys : List ℕ) (i : ℕ)
    → Apart (12 + i * 12) 12 p (length ys)
    → leaf_at (splice node p ys) i ≡ leaf_at node i
unfolding leaf_at
leaf_at-splice node p ys i apart =
    let off = 12 + i * 12 in
    let e₁ =
      u32_le-splice node p ys off
        (elim apart [ inl a ↦ inl (omega arith) | inr b ↦ inr (omega arith) ]) in
    let e₂ = u16_le-splice node p ys (off + 4) (narrow 4 2 (omega arith)) in
    let e₃ = u16_le-splice node p ys (off + 6) (narrow 6 2 (omega arith)) in
    let e₄ = u32_le-splice node p ys (off + 8) (narrow 8 4 (omega arith)) in
    λ k. record { ee_block = e₁ k; ee_len = e₂ k; ee_start_hi = e₃ k; ee_start_lo = e₄ k }
  where
    narrow : (k n : ℕ) → k + n ≤ 12 → Apart (12 + i * 12 + k) n p (length ys)
    narrow k n h = elim apart [ inl a ↦ inl (omega arith) | inr b ↦ inr (omega arith) ]

pub read_header-splice_self :
    (node : List ℕ) (h : ExtentHeader)
    → IsHeader h
    → 12 ≤ length node
    → read_header (splice node 0 (header_bytes h)) ≡ h
unfolding header_bytes
read_header-splice_self node h (a, b, c, d, e) inside =
    let bytes = header_bytes h in
    let e₁ : u16_le (splice node 0 bytes) 0 ≡ h.eh_magic =
      u16_le-splice_in node 0 bytes (omega arith) 0 (omega arith) ∙ omega arith in
    let e₂ : u16_le (splice node 0 bytes) 2 ≡ h.eh_entries =
      u16_le-splice_in node 0 bytes (omega arith) 2 (omega arith) ∙ omega arith in
    let e₃ : u16_le (splice node 0 bytes) 4 ≡ h.eh_max =
      u16_le-splice_in node 0 bytes (omega arith) 4 (omega arith) ∙ omega arith in
    let e₄ : u16_le (splice node 0 bytes) 6 ≡ h.eh_depth =
      u16_le-splice_in node 0 bytes (omega arith) 6 (omega arith) ∙ omega arith in
    let e₅ : u32_le (splice node 0 bytes) 8 ≡ h.eh_generation =
      u32_le-splice_in node 0 bytes (omega arith) 8 (omega arith) ∙ omega arith in
    λ k. record {
      eh_magic = e₁ k;
      eh_entries = e₂ k;
      eh_max = e₃ k;
      eh_depth = e₄ k;
      eh_generation = e₅ k;
    }

-- The list of a node's leaves, one more or one changed.
pub push_leaves-snoc :
    (node : List ℕ) (i n : ℕ) (out : List ExtentLeaf)
    → push_leaves node i (suc n) out ≡ push_leaves node i n out ++ leaf_at node (i + n) ∷ []
unfolding push_leaves
push_leaves-snoc node i zero out = let e : i + 0 ≡ i = omega arith in rw e refl
push_leaves-snoc node i (suc n) out =
    let e : i + 1 + n ≡ i + suc n = omega arith in
    rw (← e) (push_leaves-snoc node (i + 1) n (out ++ leaf_at node i ∷ []))

pub push_leaves-congruent :
    (node node' : List ℕ) (i n : ℕ) (out : List ExtentLeaf)
    → ((j : ℕ) → j < i + n → leaf_at node' j ≡ leaf_at node j)
    → push_leaves node' i n out ≡ push_leaves node i n out
unfolding push_leaves
push_leaves-congruent node node' i zero out h = refl
push_leaves-congruent node node' i (suc n) out h =
    rw (h i (omega arith))
      (push_leaves-congruent node node' (i + 1) n _ (λ j lt. h j (omega arith)))

-- A node that `push_entry` gives one more leaf lists the leaves it had and then the new one, and
-- its header counts it; it has not changed its size.
pub push_entry-push_leaves :
    (node : List ℕ) (leaf : ExtentLeaf) (entries max depth : ℕ) {node' : List ℕ}
    → IsLeaf leaf
    → entries + 1 < 2 ^ 16
    → max < 2 ^ 16
    → depth < 2 ^ 16
    → push_entry node (leaf_bytes leaf) entries max depth ≡ ok node'
    → (read_header node' ≡ make_header (entries + 1) max depth)
      × (push_leaves node' 0 (entries + 1) [] ≡ push_leaves node 0 entries [] ++ leaf ∷ [])
      × (length node' ≡ length node)
unfolding push_entry make_header header_bytes leaf_bytes
push_entry-push_leaves node leaf entries max depth {node'} is_leaf few max_lt depth_lt h =
    let header = make_header (entries + 1) max depth in
    let (mid, e₁, h₁) =
      >>=-eq-ok (copy_at {E = ExtentWriteError} node (12 + entries * 12) (leaf_bytes leaf)) _ h in
    let (fits, p₁) = copy_at-eq-ok node (12 + entries * 12) (leaf_bytes leaf) e₁ in
    let (fits', p₂) = copy_at-eq-ok mid 0 (header_bytes header) h₁ in
    let head = length-splice node (12 + entries * 12) (leaf_bytes leaf) in
    let kept : (j : ℕ) → leaf_at node' j ≡ leaf_at mid j =
      λ j. rw p₂ (leaf_at-splice mid 0 (header_bytes header) j (inr (omega arith))) in
    let old : (j : ℕ) → j < 0 + entries → leaf_at node' j ≡ leaf_at node j = λ j lt.
      kept j
      ∙ rw p₁ (leaf_at-splice node (12 + entries * 12) (leaf_bytes leaf) j (inl (omega arith))) in
    let last : leaf_at node' entries ≡ leaf =
      kept entries ∙ rw p₁ (leaf_at-splice_self node entries leaf is_leaf (omega arith)) in
    let one_more : entries + 1 ≡ suc entries = omega arith in
    let from_0 : 0 + entries ≡ entries = omega arith in
    let size : length mid ≡ length node = rw p₁ head in
    (
      rw p₂ (
          read_header-splice_self mid header
            (omega arith, omega arith, omega arith, omega arith, omega arith) (omega arith)),
      rw
          (
            one_more,
            push_leaves-snoc node' 0 entries [],
            push_leaves-congruent node node' 0 entries [] old,
            from_0,
            last,
          )
          refl,
      rw p₂ (length-splice mid 0 (header_bytes header)) ∙ size,
    )

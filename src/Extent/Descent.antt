-- ===== src/Extent/Descent.antt =====
-- `lookup_in_node` of `ext4-core/src/extent.rs` ends on trees of a height.
use pengwin.Base.{
  ℕ, zero, suc, ◌+◌, ◌<◌, ◌≡◌, ◌≢◌, refl, ◌∙◌, inl, inr, ◌⊎◌, ◌*◌, ◌-◌, ◌/◌, ◌^◌, map_err,
  Bool-cases, leb, ltb, ◌==◌, Option, none, some, List, length, Outcome, ok, err, panic,
  >>=-ne_panic, ensure-ne_panic, ensure-eq-ok, >>=-eq-ok, Outcome-cases, Option-cases, arith,
}
use pengwin.Device.{BlockDevice, invalid_geometry, read_loop, read_sectors}
use pengwin.Superblock.{Superblock}
use pengwin.Extent.{
  ExtentError, block_number_overflow, block_device, ExtentHeader, extent_magic, max_depth,
  bad_magic, depth_exceeded, truncated_node, read_header, check_node, covers, leaf_at, leaf_start,
  leaf_block, leaf_loop, idx_at, idx_child, idx_loop, next_of, answer, child, look_in_node,
  read_block, lookup_in_node,
}

-- The search of an index node gives what it began with or the child of one of the entries.
idx_loop-entry :
    (node : List ℕ) (lblock i n : ℕ) (best : Option ℕ) {b : ℕ}
    → idx_loop node lblock i n best ≡ some b
    → (best ≡ some b) ⊎ ((j : ℕ) × (j < i + n) × (idx_child (idx_at node j) ≡ b))
unfolding idx_loop
idx_loop-entry node lblock i zero best h = inl h
idx_loop-entry node lblock i (suc n) best h =
    elim (Bool-cases (leb ((idx_at node i).ei_block) lblock)) [
      | inr after ↦ inl (rw after at h)
      | inl before ↦
          elim (idx_loop-entry node lblock (i + 1) n (some (idx_child (idx_at node i)))
            (rw before at h)) [
              | inl here ↦ inr (i, omega arith, cc)
              | inr (j, lt, there) ↦ inr (j, omega arith, there)
            ]
    ]

check_node-header :
    (node : List ℕ) {header : ExtentHeader}
    → check_node node ≡ ok header
    → header ≡ read_header node
unfolding check_node
check_node-header node h =
    let found = read_header node in
    let (_, h₁) = ensure-eq-ok (leb 12 (length node)) truncated_node _ h in
    let (_, h₂) = ensure-eq-ok (found.eh_magic == extent_magic) (bad_magic found.eh_magic) _ h₁ in
    let (_, h₃) =
      ensure-eq-ok (leb found.eh_depth max_depth) (depth_exceeded found.eh_depth) _ h₂ in
    let (_, h₄) =
      ensure-eq-ok (leb (12 + found.eh_entries * 12) (length node)) truncated_node _ h₃ in
    cc

-- A child to go on with is that of an entry, and the node is no leaf.
look_in_node-child :
    (node : List ℕ) (lblock : ℕ) {b : ℕ}
    → look_in_node node lblock ≡ ok (child b)
    → ((read_header node).eh_depth ≢ 0)
      × ((j : ℕ) × (j < (read_header node).eh_entries) × (idx_child (idx_at node j) ≡ b))
unfolding look_in_node next_of
look_in_node-child node lblock {b} h =
    let (header, e, h₁) = >>=-eq-ok (check_node node) _ h in
    let same = check_node-header node e in
    elim (Bool-cases (header.eh_depth == 0)) [
      | inl leaf ↦
          let (found, _, h₂) =
            >>=-eq-ok (leaf_loop node lblock 0 header.eh_entries) _ (rw leaf at h₁) in
          cc
      | inr inner ↦
          let h₂ = rw inner at h₁ in
          elim (Option-cases (idx_loop node lblock 0 header.eh_entries none)) [
            | inl missing ↦ let h₃ = rw missing at h₂ in cc
            | inr (c, hit) ↦
                let h₃ = rw hit at h₂ in
                let here : c ≡ b = cc in
                elim (idx_loop-entry node lblock 0 header.eh_entries none hit) [
                  | inl e₀ ↦ cc
                  | inr (j, lt, there) ↦ (
                    λ zero_depth. ground arith,
                    (
                      j,
                      (let lt' : j < 0 + (read_header node).eh_entries = rw same at lt in
                          omega arith),
                      there ∙ here,
                    ),
                  )
                ]
          ]
    ]

map_err-ne_panic : {E F A : Type 0} (f : E → F) (m : Outcome E A) → m ≢ panic → map_err f m ≢ panic
map_err-ne_panic f (ok a) h = λ p. cc
map_err-ne_panic f (err e) h = λ p. cc
map_err-ne_panic f panic h = absurd (h refl)

leaf_loop-ne_panic : (node : List ℕ) (lblock i n : ℕ) → leaf_loop node lblock i n ≢ panic
unfolding leaf_loop leaf_block
leaf_loop-ne_panic node lblock i zero = λ p. cc
leaf_loop-ne_panic node lblock i (suc n) =
    let leaf = leaf_at node i in
    elim (Bool-cases (covers leaf lblock)) [
      | inr apart ↦ rw apart (leaf_loop-ne_panic node lblock (i + 1) n)
      | inl inside ↦
          rw inside (elim (Bool-cases (ltb (leaf_start leaf + (lblock - leaf.ee_block)) (2 ^ 64))) [
            | inl fits ↦ rw fits (λ p. cc)
            | inr over ↦ rw over (λ p. cc)
          ])
    ]

check_node-ne_panic : (node : List ℕ) → check_node node ≢ panic
unfolding check_node
check_node-ne_panic node =
    let found = read_header node in
    ensure-ne_panic (leb 12 (length node)) truncated_node _ λ _.
      ensure-ne_panic (found.eh_magic == extent_magic) (bad_magic found.eh_magic) _ λ _.
        ensure-ne_panic (leb found.eh_depth max_depth) (depth_exceeded found.eh_depth) _ λ _.
          ensure-ne_panic (leb (12 + found.eh_entries * 12) (length node)) truncated_node _
            λ _ p. cc

look_in_node-ne_panic : (node : List ℕ) (lblock : ℕ) → look_in_node node lblock ≢ panic
unfolding look_in_node
look_in_node-ne_panic node lblock =
    >>=-ne_panic (check_node node) _ (check_node-ne_panic node) λ header e.
      elim (Bool-cases (header.eh_depth == 0)) [
        | inl leaf ↦ rw leaf (
            >>=-ne_panic (leaf_loop node lblock 0 header.eh_entries) _
              (leaf_loop-ne_panic node lblock 0 header.eh_entries) (λ found e'. λ p. cc))
        | inr inner ↦ rw inner (λ p. cc)
      ]

module _ (D : BlockDevice) (dev : D.Dev) (sb : Superblock)
    (reads : (i : ℕ) → D.read_sector dev i ≢ panic) where
  read_loop-ne_panic : (i n : ℕ) → read_loop D dev i n ≢ panic
  unfolding read_loop
  read_loop-ne_panic i zero = λ p. cc
  read_loop-ne_panic i (suc n) = >>=-ne_panic (D.read_sector dev i) _ (reads i) λ b e.
      >>=-ne_panic (read_loop D dev (i + 1) n) _ (read_loop-ne_panic (i + 1) n) λ rest e' p. cc

  read_block-ne_panic : (b : ℕ) → read_block D dev sb b ≢ panic
  unfolding read_block read_sectors
  read_block-ne_panic b =
      let per_block = sb.block_size / 512 in
      ensure-ne_panic (ltb (b * per_block) (2 ^ 64)) block_number_overflow _ λ _.
        map_err-ne_panic block_device (read_sectors D dev (b * per_block) per_block) (
          ensure-ne_panic (ltb (per_block * 512) (2 ^ 64)) (invalid_geometry per_block) _
            λ _. read_loop-ne_panic (b * per_block) per_block)

  -- A tree of the height: a leaf node at height 0, and above it a node of whose entries' children
  -- every one that can be read is a tree of the height below.
  abbrev pub IsTree : ℕ → List ℕ → Type 0
  IsTree zero node = (read_header node).eh_depth ≡ 0
  IsTree (suc height) node =
      (j : ℕ) (bytes : List ℕ)
      → j < (read_header node).eh_entries
      → read_block D dev sb (idx_child (idx_at node j)) ≡ ok bytes
      → IsTree height bytes

  -- The lookup on a tree of the height with this fuel has a result, which is no panic.
  abbrev pub Ends : ℕ → List ℕ → ℕ → Type 0
  Ends fuel node lblock =
      (r : Outcome ExtentError (Option ℕ)) × (lookup_in_node D dev sb fuel node lblock ≡ some r)
      × (r ≢ panic)

  -- A step ends where it does not go on to a child that can be read.
  stops :
      (fuel : ℕ) (node : List ℕ) (lblock : ℕ)
      → ((b : ℕ) (bytes : List ℕ)
          → look_in_node node lblock ≡ ok (child b)
          → read_block D dev sb b ≡ ok bytes
          → Ends fuel bytes lblock)
      → Ends (suc fuel) node lblock
  unfolding lookup_in_node
  stops fuel node lblock go = elim (Outcome-cases (look_in_node node lblock)) [
    | inl (answer found, e) ↦ (ok found, rw (lookup_in_node, e) refl, λ p. cc)
    | inl (child b, e) ↦ elim (Outcome-cases (read_block D dev sb b)) [
      | inl (bytes, e') ↦
          let (r, q, fine) = go b bytes e e' in (r, rw (lookup_in_node, e, e', q) refl, fine)
      | inr (inl (x, e')) ↦ (err x, rw (lookup_in_node, e, e') refl, λ p. cc)
      | inr (inr e') ↦ absurd (read_block-ne_panic b e')
    ]
    | inr (inl (x, e)) ↦ (err x, rw (lookup_in_node, e) refl, λ p. cc)
    | inr (inr e) ↦ absurd (look_in_node-ne_panic node lblock e)
  ]

  -- On a tree of the height, over a device whose reads do not panic, the lookup with fuel for one
  -- node more than the height, or any greater fuel, ends with an answer or an error.
  pub lookup_in_node-IsTree :
      (height more : ℕ) (node : List ℕ) (lblock : ℕ)
      → IsTree height node
      → Ends (suc (height + more)) node lblock
  lookup_in_node-IsTree zero more node lblock leaf =
      stops (zero + more) node lblock
        (λ b bytes e e'. absurd ((look_in_node-child node lblock e).0 leaf))
  lookup_in_node-IsTree (suc height) more node lblock tree =
      let e : suc height + more ≡ suc (height + more) = omega arith in
      rw e (
        stops (suc (height + more)) node lblock (λ b bytes e₁ e₂.
          let (_, (j, lt, here)) = look_in_node-child node lblock e₁ in
          lookup_in_node-IsTree height more bytes lblock (tree j bytes lt (rw here e₂))))

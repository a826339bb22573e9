-- ===== src/File/Content.antt =====
-- What the reader of `ext4-core/src/file.rs` returns: the bytes of the file at its position.
use pengwin.Base.{
  ℕ, zero, suc, ◌+◌, ◌-◌, ◌*◌, ◌/◌, ◌%◌, ◌^◌, ◌≤◌, ◌<◌, ◌≡◌, sym, ◌∙◌, ap, ◌⊎◌, inl, inr, ltb, leb,
  ltb→lt, leb→le, ltb-false, ◌==◌, ==_false, Bool-cases, min, Option, none, some, List, [], ◌++◌,
  length, drop, slice, replicate, length-append, length-replicate, length-take, length-drop,
  byte_at, byte_at-take, byte_at-drop, byte_at-append_lt, byte_at-append_ge, byte_at-replicate, ok,
  map_err, map_err-eq-ok, ensure-eq-ok, assert, >>=-eq-ok, done, reads, reads-eq-done, >>=-eq-done,
  arith,
}
use mathlib.Core.Path.{subst₂}
use native.Mathlib.Nat.{div-eq_of_lt-le, div-add-mod', mod-lt}
use pengwin.Device.{BlockDevice, read_sectors}
use pengwin.Superblock.{Superblock}
use pengwin.Extent.{ExtentLeaf}
use pengwin.Extent.Leaves.{resolve_lblock}
use pengwin.File.{FileReader, other, invalid_data, read_chunk, read_loop, read}

-- Moving inside a block.
same_block : (k i n : ℕ) → k % n + i < n → ((k + i) / n ≡ k / n) × ((k + i) % n ≡ k % n + i)
same_block k i n h =
    let whole = div-add-mod' k n in
    let q : (k + i) / n ≡ k / n = div-eq_of_lt-le n (omega arith) (grind arith) in
    let whole' = rw q at (div-add-mod' (k + i) n) in (q, omega arith)

module _ (D : BlockDevice) (dev : D.Dev) (sb : Superblock) where
  -- The byte of a block, or 0 in a hole.
  abbrev pub IsByteOf : Option ℕ → ℕ → ℕ → Type 0
  IsByteOf none off v = v ≡ 0
  IsByteOf (some block) off v =
      (bytes : List ℕ) × (read_sectors D dev (block * (sb.block_size / 512)) (sb.block_size / 512)
        ≡ ok bytes)
      × (v ≡ byte_at bytes off)

  -- Byte `k` of the file with these extents.
  abbrev pub IsContent : List ExtentLeaf → ℕ → ℕ → Type 0
  IsContent leaves k v = IsByteOf (resolve_lblock leaves (k / sb.block_size)) (k % sb.block_size) v

  read_chunk-IsByteOf :
      (found : Option ℕ) (off count : ℕ) {bytes : List ℕ}
      → read_chunk D dev sb found off count ≡ ok bytes
      → (length bytes ≡ count) × ((i : ℕ) → i < count → IsByteOf found (off + i) (byte_at bytes i))
  unfolding read_chunk
  read_chunk-IsByteOf none off count {bytes} h =
      let e : replicate count 0 ≡ bytes = cc in
      (rw (← e) (length-replicate count 0), λ i lt. rw (← e) (byte_at-replicate count 0 i lt))
  read_chunk-IsByteOf (some b) off count {bytes} h =
      let start = b * (sb.block_size / 512) in
      let (fits, h₁) = ensure-eq-ok (ltb start (2 ^ 64)) invalid_data _ h in
      let (block, e₁, h₂) =
        >>=-eq-ok (map_err other (read_sectors D dev start (sb.block_size / 512))) _ h₁ in
      let (_, e₂, h₃) = >>=-eq-ok (assert (leb (off + count) (length block))) _ h₂ in
      let e : slice block off count ≡ bytes = cc in
      let inside : off + count ≤ length block = ground arith in
      (
        rw (← e) (omega (arith, length-take count (drop off block), length-drop off block)),
        λ i lt. (
          block,
          map_err-eq-ok other _ e₁,
          rw (← e) (byte_at-take count (drop off block) i lt ∙ byte_at-drop off block i),
        ),
      )

  -- One turn of the loop and those after it.
  abbrev Reads : List ExtentLeaf → ℕ → ℕ → List ℕ → Type 0
  Reads leaves off left bytes =
      (length bytes ≡ left) × ((i : ℕ) → i < left → IsContent leaves (off + i) (byte_at bytes i))

  Reads-append :
      (leaves : List ExtentLeaf) (off n rest : ℕ) (xs ys : List ℕ)
      → 0 < sb.block_size
      → n ≤ sb.block_size - off % sb.block_size
      → length xs ≡ n
      → ((i : ℕ)
          → i < n
          → IsByteOf
              (resolve_lblock leaves (off / sb.block_size))
              (off % sb.block_size + i)
              (byte_at xs i))
      → Reads leaves (off + n) rest ys
      → Reads leaves off (n + rest) (xs ++ ys)
  Reads-append leaves off n rest xs ys wide fits len here (len', there) = (
    omega (arith, length-append xs ys),
    λ i lt. elim (Bool-cases (ltb i n)) [
      | inl below ↦ bytes i lt (inl (ltb→lt i n below))
      | inr above ↦ bytes i lt (inr (ltb-false i n above))
    ],
  )
    where
      bytes :
          (i : ℕ)
          → i < n + rest
          → (i < n) ⊎ (n ≤ i)
          → IsContent leaves (off + i) (byte_at (xs ++ ys) i)
      bytes i lt (inl h) =
          let inside = mod-lt off wide in
          let (q, r) = same_block off i sb.block_size (omega arith) in
          rw (q, r, byte_at-append_lt xs ys i (omega arith)) (here i h)
      bytes i lt (inr h) =
          let e : off + n + (i - n) ≡ off + i = omega arith in
          rw (byte_at-append_ge xs ys (i - n) i (omega arith), ← e) (there (i - n) (omega arith))

  read_loop-Reads :
      (leaves : List ExtentLeaf) (fuel off left : ℕ) {bytes : List ℕ}
      → 0 < sb.block_size
      → left ≤ fuel
      → read_loop D dev sb leaves fuel off left ≡ ok bytes
      → Reads leaves off left bytes
  unfolding read_loop
  read_loop-Reads leaves zero off left {bytes} wide enough h =
      let e : [] ≡ bytes = cc in (rw (← e) (omega arith), λ i lt. absurd (omega arith))
  read_loop-Reads leaves (suc fuel) off left {bytes} wide enough h = elim (Bool-cases (left == 0)) [
    | inl over ↦
        let none_left : left ≡ 0 = ground arith in
        let h₀ = rw over at h in
        let e : [] ≡ bytes = cc in (rw (← e) (omega arith), λ i lt. absurd (omega arith))
    | inr going ↦
        let chunk_of =
          read_chunk D dev sb (resolve_lblock leaves (off / sb.block_size)) (off % sb.block_size)
            (min (sb.block_size - off % sb.block_size) left) in
        let (chunk, e₁, h₁) = >>=-eq-ok chunk_of _ (rw going at h) in
        let (rest, e₂, h₂) = >>=-eq-ok (read_loop D dev sb leaves fuel _ _) _ h₁ in
        let (len, here) = read_chunk-IsByteOf _ _ _ e₁ in
        let e : chunk ++ rest ≡ bytes = cc in
        let inside = mod-lt off wide in
        let positive = ==_false left 0 going in
        let can_take = min (sb.block_size - off % sb.block_size) left in
        let there : Reads leaves (off + can_take) (left - can_take) rest =
          read_loop-Reads leaves fuel _ _ wide (omega arith) e₂ in
        let whole : can_take + (left - can_take) ≡ left = omega arith in
        let both =
          Reads-append leaves off can_take _ chunk rest wide (omega arith) len here there in
        subst₂ (Reads leaves off) whole e both
  ]

  -- What `read` returns, for every file whose position is inside it: as many bytes as the buffer
  -- holds or the file still has, each the byte of the file at that place, which is 0 in a hole;
  -- the position moves behind them. Past the end it returns nothing and the reader is as it was.
  pub read-IsContent :
      (len : ℕ) (r : FileReader) {bytes : List ℕ} {t : FileReader}
      → 0 < sb.block_size
      → read D dev sb len r ≡ done bytes t
      → (length bytes ≡ min len (r.size - r.position))
        × (t ≡ record r { position = r.position + length bytes })
        × ((i : ℕ) → i < length bytes → IsContent r.leaves (r.position + i) (byte_at bytes i))
  unfolding read
  read-IsContent len r {bytes} {t} wide h = elim (Bool-cases (leb r.size r.position)) [
    | inl past ↦
        let at_end = leb→le r.size r.position past in
        let h' = rw past at h in
        let e : [] ≡ bytes = cc in
        let same : r ≡ t = cc in
        let stays : r.position ≡ r.position + 0 = omega arith in
        (
          rw (← e) (omega arith),
          rw (← e) (sym same ∙ (λ k. record r { position = ap (λ x. x) stays k })),
          rw (← e) (λ i lt. absurd (omega arith)),
        )
    | inr inside ↦
        let to_read = min len (r.size - r.position) in
        let loop = read_loop D dev sb r.leaves to_read r.position to_read in
        let (bs, u, e₁, h₁) =
          >>=-eq-done (reads (λ r'. read_loop D dev sb r'.leaves to_read r'.position to_read)) _ r
            (rw inside at h) in
        let (e₂, e₃) =
          reads-eq-done (λ r'. read_loop D dev sb r'.leaves to_read r'.position to_read) r e₁ in
        let (n, content) =
          read_loop-Reads r.leaves to_read r.position to_read wide (omega arith) e₂ in
        let e : bs ≡ bytes = cc in
        let moved : record u { position = u.position + length bs } ≡ t = cc in
        let from : record u { position = u.position + length bs }
            ≡ record r { position = r.position + length bs } =
          sym (λ k. record (e₃ k) { position = (e₃ k).position + length bs }) in
        rw (← e) (n, sym moved ∙ from, λ i lt. content i (omega arith))
  ]

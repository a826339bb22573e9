-- ===== src/File/Write/Parts.antt =====
-- How `write_file_data` of `ext4-core/src/file_write.rs` cuts the data into blocks.
use pengwin.Base.{
  ℕ, ◌+◌, ◌-◌, ◌*◌, ◌/◌, ◌%◌, ◌≤◌, ◌<◌, ◌≡◌, ◌≢◌, ltb, ◌∙◌, ap, inl, inr, arith, ◌==◌, ==_false,
  Bool-cases, min, List, length, drop, slice, length-take, byte_at, byte_at-take, byte_at-drop,
}
use native.Mathlib.Nat.{mul-le-mul_right, div-add-mod', mod-lt}
use pengwin.File.Write.{part_of}

-- Byte `i` of a slice.
byte_at-slice : (b : List ℕ) (off n i : ℕ) → i < n → byte_at (slice b off n) i ≡ byte_at b (off + i)
byte_at-slice b off n i h = byte_at-take n (drop off b) i h ∙ byte_at-drop off b i

length-slice_le : (b : List ℕ) (off n : ℕ) → length (slice b off n) ≤ n
length-slice_le b off n = omega (arith, length-take n (drop off b))

in_slice :
    (b : List ℕ) (start end r intra i : ℕ)
    → start + (r - intra) ≡ i
    → i < end
    → byte_at (slice b start (end - start)) (r - intra) ≡ byte_at b i
in_slice b start end r intra i e h =
    byte_at-slice b start (end - start) (r - intra) (omega arith) ∙ ap (byte_at b) e

-- A later block starts at or after the offset.
block_after :
    (n q lb r o i : ℕ) → lb * n + r ≡ q * n + o + i → r < n → o < n → lb ≢ q → q * n + n ≤ lb * n
block_after n q lb r o i e hr ho ne = elim (Bool-cases (ltb lb q)) [
  | inl below ↦
      let h : lb + 1 ≤ q = ground arith in
      let m : (lb + 1) * n ≤ q * n = mul-le-mul_right n h in
      let m' : (lb + 1) * n ≡ lb * n + n = grind arith in absurd (omega arith)
  | inr above ↦
      let h : q + 1 ≤ lb = ground arith in
      let m : (q + 1) * n ≤ lb * n = mul-le-mul_right n h in
      let m' : (q + 1) * n ≡ q * n + n = grind arith in omega arith
]

-- With blocks of positive size, byte `i` of the data, which belongs at `offset + i` in the file,
-- stands in the part for the block of that place, at the offset of that place in the block, and
-- no part goes over the end of its block.
pub part_of-place :
    (block_size offset : ℕ) (bytes : List ℕ) (i : ℕ)
    → 0 < block_size
    → i < length bytes
    → (let p = part_of block_size offset bytes ((offset + i) / block_size) in
        (p.0 ≤ (offset + i) % block_size)
        × (byte_at p.1 ((offset + i) % block_size - p.0) ≡ byte_at bytes i)
        × (p.0 + length p.1 ≤ block_size))
unfolding part_of
part_of-place block_size offset bytes i wide lt =
    let lb = (offset + i) / block_size in
    let r = (offset + i) % block_size in
    let here : lb * block_size + r ≡ offset + i = div-add-mod' (offset + i) block_size in
    let inside : r < block_size = mod-lt (offset + i) wide in
    let start : offset / block_size * block_size + offset % block_size ≡ offset =
      div-add-mod' offset block_size in
    let start_inside = mod-lt offset wide in
    let next : (lb + 1) * block_size ≡ lb * block_size + block_size = grind arith in
    let de = min ((lb + 1) * block_size - offset) (length bytes) in
    elim (Bool-cases (lb == offset / block_size)) [
      | inl first ↦
          let same : lb ≡ offset / block_size = ground arith in
          let product : lb * block_size ≡ offset / block_size * block_size =
            ap (λ z. z * block_size) same in
          rw first (
            omega arith,
            in_slice bytes 0 de r (offset - lb * block_size) i (omega arith) (omega arith),
            omega (arith, length-slice_le bytes 0 (de - 0)),
          )
      | inr later ↦
          let ne = ==_false lb (offset / block_size) later in
          let after =
            block_after block_size (offset / block_size) lb r (offset % block_size) i (omega arith)
              inside start_inside ne in
          let ds = lb * block_size - offset in
          rw later (
            omega arith,
            in_slice bytes ds de r 0 i (omega arith) (omega arith),
            omega (arith, length-slice_le bytes ds (de - ds)),
          )
    ]

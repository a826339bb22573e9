-- ===== src/Alloc/Bitmap.antt =====
-- `BlockBitmap` of `ext4-core/src/alloc/block_bitmap.rs` and `InodeBitmap` of `inode_bitmap.rs`:
-- a bitmap is its bytes, and bit `i` of a group is bit `i % 8` of byte `i / 8`.
pub mod Laws
pub mod Runs
use pengwin.Base.{
  ℕ, zero, suc, ◌+◌, ◌-◌, ◌*◌, ◌/◌, ◌%◌, ◌^◌, Bool, true, false, not, ltb, leb, ◌==◌, if◌then◌else◌,
  Option, none, some, List, [], ◌∷◌, length, set, min, byte_at, bit_and, bit_or, u32, Outcome, ok,
  panic, assert,
}
use pengwin.Base.Fallible.{◌>>=◌, ◌>>◌}

-- The bit itself: `data[i / 8] & (1 << (i % 8)) != 0`.
abbrev pub bit_is_set : List ℕ → ℕ → Bool
bit_is_set bitmap i = not (bit_and (byte_at bitmap (i / 8)) (2 ^ (i % 8)) == 0)

-- An index past the bytes panics.
unfoldable pub is_allocated {ℓ} : {E : Type ℓ} → List ℕ → ℕ → Outcome E Bool
is_allocated bitmap i = if ltb (i / 8) (length bitmap) then ok (bit_is_set bitmap i) else panic

-- `data[i / 8] |= 1 << (i % 8)` and `data[i / 8] &= !(1 << (i % 8))`.
unfoldable pub set_bit : List ℕ → ℕ → List ℕ
set_bit bitmap i = set bitmap (i / 8) (bit_or (byte_at bitmap (i / 8)) (2 ^ (i % 8)))

unfoldable pub clear_bit : List ℕ → ℕ → List ℕ
clear_bit bitmap i = set bitmap (i / 8) (bit_and (byte_at bitmap (i / 8)) (255 - 2 ^ (i % 8)))

-- The result says whether the bit was free, and the bitmap is the one afterwards.
unfoldable pub allocate {ℓ} : {E : Type ℓ} → List ℕ → ℕ → Outcome E (Bool × List ℕ)
allocate bitmap i = do
  taken ← is_allocated bitmap i
  if taken then ok (false, bitmap) else ok (true, set_bit bitmap i)

unfoldable pub free {ℓ} : {E : Type ℓ} → List ℕ → ℕ → Outcome E (Bool × List ℕ)
free bitmap i = do
  taken ← is_allocated bitmap i
  if taken then ok (true, clear_bit bitmap i) else ok (false, bitmap)

-- `u8::trailing_ones`: the first argument is the number of bits left.
unfoldable pub trailing_ones : ℕ → ℕ → ℕ
trailing_ones zero b = 0
trailing_ones (suc n) b = elim (b % 2 == 1) [ true ↦ 1 + trailing_ones n (b / 2) | false ↦ 0 ]

-- The loop of `first_free` at byte `i`.
unfoldable pub first_free_from : ℕ → List ℕ → Option ℕ
first_free_from i [] = none
first_free_from i (byte ∷ rest) =
    if byte == 0xFF then first_free_from (i + 1) rest else some (u32 (i * 8 + trailing_ones 8 byte))

abbrev pub first_free : List ℕ → Option ℕ
first_free bitmap = first_free_from 0 bitmap

-- The loop of `first_free_run` at `bit`, with `n` bits left.
unfoldable pub run_loop {ℓ} : {E : Type ℓ} → List ℕ → ℕ → ℕ → ℕ → ℕ → ℕ → Outcome E (Option ℕ)
run_loop bitmap count bit zero run_start run_len = ok none
run_loop bitmap count bit (suc n) run_start run_len = do
  taken ← is_allocated bitmap bit
  elim taken [
    | true ↦ run_loop bitmap count (bit + 1) n run_start 0
    | false ↦
        let start = if run_len == 0 then bit else run_start in
        let more = run_loop bitmap count (bit + 1) n start (run_len + 1) in
        if leb count (run_len + 1) then ok (some start) else more
  ]

abbrev pub run_limit : List ℕ → ℕ → ℕ
run_limit bitmap bits_in_group = min bits_in_group (u32 (length bitmap) * 8)

unfoldable pub first_free_run {ℓ} : {E : Type ℓ} → List ℕ → ℕ → ℕ → Outcome E (Option ℕ)
first_free_run bitmap count bits_in_group =
    if count == 0 then ok (some 0) else run_loop bitmap count 0 (run_limit bitmap bits_in_group) 0 0

-- ===== src/Base/Bytes.antt =====
-- Fixed-width fields in byte buffers. On-disk ext4 structures are little-endian, the journal's
-- are big-endian; a `zerocopy` field at offset `off` of a struct is read and written there.
use Prim.Native.Nat.{ℕ, zero, suc, ◌+◌, ◌*◌, ◌/◌, ◌%◌, ◌≤◌, ◌<◌}
use mathlib.Core.Path.{◌≡◌, refl, subst}
use mathlib.Core.Logic.{◌⊎◌, inl, inr}
use mathlib.Core.List.{List, [], ◌∷◌, ◌++◌}
use native.Mathlib.Omega.{arith}
use pengwin.Base.Lists.{
  length, take, drop, replicate, get_or, splice, get_or-splice_lt, get_or-splice_in,
  get_or-splice_ge,
}
use pengwin.Base.Word.{u16, u32}

abbrev pub byte_at : List ℕ → ℕ → ℕ
byte_at d off = get_or d off 0

abbrev pub IsBytes : List ℕ → Type 0
IsBytes d = (i : ℕ) → byte_at d i < 256

pub IsBytes-append : (xs ys : List ℕ) → IsBytes xs → IsBytes ys → IsBytes (xs ++ ys)
IsBytes-append [] ys h k i = k i
IsBytes-append (x ∷ xs) ys h k zero = h zero
IsBytes-append (x ∷ xs) ys h k (suc i) = IsBytes-append xs ys (λ j. h (suc j)) k i

abbrev pub u16_le : List ℕ → ℕ → ℕ
u16_le d off = byte_at d off + 256 * byte_at d (off + 1)

abbrev pub u32_le : List ℕ → ℕ → ℕ
u32_le d off = u16_le d off + 65536 * u16_le d (off + 2)

abbrev pub u16_be : List ℕ → ℕ → ℕ
u16_be d off = 256 * byte_at d off + byte_at d (off + 1)

abbrev pub u32_be : List ℕ → ℕ → ℕ
u32_be d off = 65536 * u16_be d off + u16_be d (off + 2)

abbrev pub bytes_u16_le : ℕ → List ℕ
bytes_u16_le v = (v % 256) ∷ (v / 256 % 256) ∷ []

abbrev pub bytes_u32_le : ℕ → List ℕ
bytes_u32_le v = (v % 256) ∷ (v / 256 % 256) ∷ (v / 65536 % 256) ∷ (v / 16777216 % 256) ∷ []

abbrev pub bytes_u16_be : ℕ → List ℕ
bytes_u16_be v = (v / 256 % 256) ∷ (v % 256) ∷ []

abbrev pub bytes_u32_be : ℕ → List ℕ
bytes_u32_be v = (v / 16777216 % 256) ∷ (v / 65536 % 256) ∷ (v / 256 % 256) ∷ (v % 256) ∷ []

-- What lies outside the spliced window is read as before.
abbrev pub Apart : ℕ → ℕ → ℕ → ℕ → Type 0
Apart off n i m = (off + n ≤ i) ⊎ (i + m ≤ off)

module _ (d : List ℕ) (i : ℕ) (ys : List ℕ) (off : ℕ) where
  pub byte_at-splice : Apart off 1 i (length ys) → byte_at (splice d i ys) off ≡ byte_at d off
  byte_at-splice (inl h) = get_or-splice_lt d i ys off 0 (omega arith)
  byte_at-splice (inr h) = get_or-splice_ge d i ys off 0 h

module _ (d : List ℕ) (i : ℕ) (ys : List ℕ) (off : ℕ) where
  pub u16_le-splice : Apart off 2 i (length ys) → u16_le (splice d i ys) off ≡ u16_le d off
  u16_le-splice h = omega (
    arith,
    byte_at-splice d i ys off (omega arith),
    byte_at-splice d i ys (off + 1) (omega arith),
  )

  pub u16_be-splice : Apart off 2 i (length ys) → u16_be (splice d i ys) off ≡ u16_be d off
  u16_be-splice h = omega (
    arith,
    byte_at-splice d i ys off (omega arith),
    byte_at-splice d i ys (off + 1) (omega arith),
  )

module _ (d : List ℕ) (i : ℕ) (ys : List ℕ) (off : ℕ) where
  pub u32_le-splice : Apart off 4 i (length ys) → u32_le (splice d i ys) off ≡ u32_le d off
  u32_le-splice h =
      omega (
        arith,
        u16_le-splice d i ys off (omega arith),
        u16_le-splice d i ys (off + 2) (omega arith),
      )

  pub u32_be-splice : Apart off 4 i (length ys) → u32_be (splice d i ys) off ≡ u32_be d off
  u32_be-splice h =
      omega (
        arith,
        u16_be-splice d i ys off (omega arith),
        u16_be-splice d i ys (off + 2) (omega arith),
      )

-- A field reads back as what was written, cut to its width.
module _ (d : List ℕ) (off v : ℕ) where
  pub u16_le-splice_self : off + 2 ≤ length d → u16_le (splice d off (bytes_u16_le v)) off ≡ u16 v
  u16_le-splice_self h = omega (
    arith,
    get_or-splice_in d off (bytes_u16_le v) 0 off 0 (omega arith) (omega arith) (omega arith),
    get_or-splice_in d off (bytes_u16_le v) 1 (off + 1) 0 refl (omega arith) (omega arith),
  )

  pub u32_le-splice_self : off + 4 ≤ length d → u32_le (splice d off (bytes_u32_le v)) off ≡ u32 v
  u32_le-splice_self h = omega (
    arith,
    get_or-splice_in d off (bytes_u32_le v) 0 off 0 (omega arith) (omega arith) (omega arith),
    get_or-splice_in d off (bytes_u32_le v) 1 (off + 1) 0 refl (omega arith) (omega arith),
    get_or-splice_in d off (bytes_u32_le v) 2 (off + 2) 0 refl (omega arith) (omega arith),
    get_or-splice_in d off (bytes_u32_le v) 3 (off + 2 + 1) 0 (omega arith) (omega arith)
        (omega arith),
  )

  pub u16_be-splice_self : off + 2 ≤ length d → u16_be (splice d off (bytes_u16_be v)) off ≡ u16 v
  u16_be-splice_self h = omega (
    arith,
    get_or-splice_in d off (bytes_u16_be v) 0 off 0 (omega arith) (omega arith) (omega arith),
    get_or-splice_in d off (bytes_u16_be v) 1 (off + 1) 0 refl (omega arith) (omega arith),
  )

  pub u32_be-splice_self : off + 4 ≤ length d → u32_be (splice d off (bytes_u32_be v)) off ≡ u32 v
  u32_be-splice_self h = omega (
    arith,
    get_or-splice_in d off (bytes_u32_be v) 0 off 0 (omega arith) (omega arith) (omega arith),
    get_or-splice_in d off (bytes_u32_be v) 1 (off + 1) 0 refl (omega arith) (omega arith),
    get_or-splice_in d off (bytes_u32_be v) 2 (off + 2) 0 refl (omega arith) (omega arith),
    get_or-splice_in d off (bytes_u32_be v) 3 (off + 2 + 1) 0 (omega arith) (omega arith)
        (omega arith),
  )

-- Parts of buffers.
pub byte_at-drop : (n : ℕ) (b : List ℕ) (j : ℕ) → byte_at (drop n b) j ≡ byte_at b (n + j)
byte_at-drop zero b j = let e : 0 + j ≡ j = omega arith in rw e
byte_at-drop (suc n) [] j = refl
byte_at-drop (suc n) (x ∷ b) j =
    let e : suc n + j ≡ suc (n + j) = omega arith in rw e (byte_at-drop n b j)

pub byte_at-take : (n : ℕ) (b : List ℕ) (j : ℕ) → j < n → byte_at (take n b) j ≡ byte_at b j
byte_at-take zero b j h = absurd (omega arith)
byte_at-take (suc n) [] j h = refl
byte_at-take (suc n) (x ∷ b) zero h = refl
byte_at-take (suc n) (x ∷ b) (suc j) h = byte_at-take n b j (omega arith)

pub byte_at-append_lt :
    (xs ys : List ℕ) (j : ℕ) → j < length xs → byte_at (xs ++ ys) j ≡ byte_at xs j
byte_at-append_lt [] ys j h = absurd (omega arith)
byte_at-append_lt (x ∷ xs) ys zero h = refl
byte_at-append_lt (x ∷ xs) ys (suc j) h = byte_at-append_lt xs ys j (omega arith)

pub byte_at-append_ge :
    (xs ys : List ℕ) (k j : ℕ) → length xs + k ≡ j → byte_at (xs ++ ys) j ≡ byte_at ys k
byte_at-append_ge [] ys k j e = let same : j ≡ k = omega arith in rw same
byte_at-append_ge (x ∷ xs) ys k zero e = absurd (omega arith)
byte_at-append_ge (x ∷ xs) ys k (suc j) e = byte_at-append_ge xs ys k j (omega arith)

pub byte_at-replicate : (n v j : ℕ) → j < n → byte_at (replicate n v) j ≡ v
byte_at-replicate zero v j h = absurd (omega arith)
byte_at-replicate (suc n) v zero h = refl
byte_at-replicate (suc n) v (suc j) h = byte_at-replicate n v j (omega arith)

-- Fields inside the spliced window are those of the new bytes.
module _ (d : List ℕ) (i : ℕ) (ys : List ℕ) (inside : i + length ys ≤ length d) where
  pub byte_at-splice_in : (k : ℕ) → k < length ys → byte_at (splice d i ys) (i + k) ≡ byte_at ys k
  byte_at-splice_in k h = get_or-splice_in d i ys k (i + k) 0 refl h (omega arith)

  pub u16_le-splice_in : (k : ℕ) → k + 2 ≤ length ys → u16_le (splice d i ys) (i + k) ≡ u16_le ys k
  u16_le-splice_in k h =
      let next : i + k + 1 ≡ i + (k + 1) = omega arith in
      rw (next, byte_at-splice_in k (omega arith), byte_at-splice_in (k + 1) (omega arith)) refl

  pub u32_le-splice_in : (k : ℕ) → k + 4 ≤ length ys → u32_le (splice d i ys) (i + k) ≡ u32_le ys k
  u32_le-splice_in k h =
      let next : i + k + 2 ≡ i + (k + 2) = omega arith in
      rw (u16_le-splice_in k (omega arith), next, u16_le-splice_in (k + 2) (omega arith)) refl

  pub u32_le-splice_start : 4 ≤ length ys → u32_le (splice d i ys) i ≡ u32_le ys 0
  u32_le-splice_start h =
      subst (λ z. u32_le (splice d i ys) z ≡ u32_le ys 0) (omega arith) (u32_le-splice_in 0 h)

-- ===== src/Alloc/Bitmap/Laws.antt =====
-- Setting and clearing a bit changes that bit and no other.
use pengwin.Base.{
  ℕ, zero, suc, ap, ==_false, ne→==_false, ◌+◌, ◌-◌, ◌*◌, ◌/◌, ◌%◌, ◌^◌, ◌<◌, ◌≡◌, refl, ◌≢◌, inl,
  inr, Bool, true, false, not, ◌&&◌, ltb, ◌==◌, ==_iff, if◌then◌else◌, Bool-cases, List, [], ◌∷◌,
  length, set, byte_at, bit_and, bit_or, IsBytes, get_or-set_self, get_or-set_ne, length-set, arith,
}
use pengwin.Base.Bits.{all_below, all_below_sound}
use pengwin.Alloc.Bitmap.{bit_is_set, set_bit, clear_bit}

-- The laws of one byte, by a table of all bytes and pairs of bits.
byte_test : ℕ → ℕ → Bool
byte_test b k = not (bit_and b (2 ^ k) == 0)

bool_eq : Bool → Bool → Bool
bool_eq true b = b
bool_eq false b = not b

bool_eq_sound : (a b : Bool) → bool_eq a b ≡ true → a ≡ b
unfolding bool_eq
bool_eq_sound a b h = ground arith

row : ℕ → ℕ → ℕ → Bool
row b k j =
    bool_eq (byte_test (bit_or b (2 ^ k)) j) (if k == j then true else byte_test b j)
    && bool_eq (byte_test (bit_and b (255 - 2 ^ k)) j) (if k == j then false else byte_test b j)
    && ltb (bit_or b (2 ^ k)) 256
    && ltb (bit_and b (255 - 2 ^ k)) 256

byte_table : all_below 16384 (λ x. row (x / 64) (x / 8 % 8) (x % 8)) ≡ true
unfolding all_below row bool_eq byte_test
byte_table = refl

row_holds : (b k j : ℕ) → b < 256 → k < 8 → j < 8 → row b k j ≡ true
row_holds b k j hb hk hj =
    let e₁ : (b * 64 + k * 8 + j) / 64 ≡ b = omega arith in
    let e₂ : (b * 64 + k * 8 + j) / 8 % 8 ≡ k = omega arith in
    let e₃ : (b * 64 + k * 8 + j) % 8 ≡ j = omega arith in
    let table =
      all_below_sound 16384 (λ x. row (x / 64) (x / 8 % 8) (x % 8)) (b * 64 + k * 8 + j) byte_table
        (omega arith) in
    rw (e₁, e₂, e₃) at table

byte_set :
    (b k j : ℕ)
    → b < 256
    → k < 8
    → j < 8
    → byte_test (bit_or b (2 ^ k)) j ≡ (if k == j then true else byte_test b j)
unfolding row
byte_set b k j hb hk hj = bool_eq_sound _ _ (ground (arith, row_holds b k j hb hk hj))

byte_clear :
    (b k j : ℕ)
    → b < 256
    → k < 8
    → j < 8
    → byte_test (bit_and b (255 - 2 ^ k)) j ≡ (if k == j then false else byte_test b j)
unfolding row
byte_clear b k j hb hk hj = bool_eq_sound _ _ (ground (arith, row_holds b k j hb hk hj))

byte_bounds :
    (b k : ℕ) → b < 256 → k < 8 → (bit_or b (2 ^ k) < 256) × (bit_and b (255 - 2 ^ k) < 256)
unfolding row
byte_bounds b k hb hk =
    let h = row_holds b k 0 hb hk (omega arith) in (ground (arith, h), ground (arith, h))

-- Writing one byte whose bits are those of the old byte but for bit `i`.
rewritten_bit :
    (bitmap : List ℕ) (i v : ℕ) (on : Bool) (j : ℕ)
    → i / 8 < length bitmap
    → byte_test v (j % 8)
      ≡ (if i % 8 == j % 8 then on else byte_test (byte_at bitmap (i / 8)) (j % 8))
    → bit_is_set (set bitmap (i / 8) v) j ≡ (if i == j then on else bit_is_set bitmap j)
unfolding byte_test
rewritten_bit bitmap i v on j inside law = elim (Bool-cases (i / 8 == j / 8)) [
  | inl same ↦
      let e : i / 8 ≡ j / 8 = (==_iff _ _).0 same in
      let e' : byte_at (set bitmap (i / 8) v) (j / 8) ≡ v =
        rw (← e) (get_or-set_self bitmap (i / 8) v 0 inside) in
      rw e' (ground (arith, law))
  | inr other ↦
      let ne : i / 8 ≢ j / 8 = ==_false _ _ other in
      let ne' : i ≢ j = λ e. ne (ap (λ (t : ℕ). t / 8) e) in
      rw (get_or-set_ne bitmap (i / 8) (j / 8) v 0 ne, ne→==_false i j ne')
]

module _ (bitmap : List ℕ) (i : ℕ) (bytes : IsBytes bitmap) (inside : i / 8 < length bitmap) where
  -- Marking a bit sets that bit and leaves every other bit as it was.
  pub bit_is_set-set_bit :
      (j : ℕ) → bit_is_set (set_bit bitmap i) j ≡ (if i == j then true else bit_is_set bitmap j)
  unfolding set_bit
  bit_is_set-set_bit j =
      rewritten_bit bitmap i (bit_or (byte_at bitmap (i / 8)) (2 ^ (i % 8))) true j inside (
        byte_set (byte_at bitmap (i / 8)) (i % 8) (j % 8) (bytes (i / 8)) (omega arith)
          (omega arith))

  -- Freeing a bit clears that bit and leaves every other bit as it was.
  pub bit_is_set-clear_bit :
      (j : ℕ) → bit_is_set (clear_bit bitmap i) j ≡ (if i == j then false else bit_is_set bitmap j)
  unfolding clear_bit
  bit_is_set-clear_bit j =
      rewritten_bit bitmap i (bit_and (byte_at bitmap (i / 8)) (255 - 2 ^ (i % 8))) false j inside (
        byte_clear (byte_at bitmap (i / 8)) (i % 8) (j % 8) (bytes (i / 8)) (omega arith)
          (omega arith))

IsBytes-set : (bitmap : List ℕ) (i v : ℕ) → IsBytes bitmap → v < 256 → IsBytes (set bitmap i v)
IsBytes-set [] i v h lt j = h j
IsBytes-set (b ∷ bs) zero v h lt zero = lt
IsBytes-set (b ∷ bs) zero v h lt (suc j) = h (suc j)
IsBytes-set (b ∷ bs) (suc i) v h lt zero = h zero
IsBytes-set (b ∷ bs) (suc i) v h lt (suc j) = IsBytes-set bs i v (λ k. h (suc k)) lt j

pub set_bit-IsBytes : (bitmap : List ℕ) (i : ℕ) → IsBytes bitmap → IsBytes (set_bit bitmap i)
unfolding set_bit
set_bit-IsBytes bitmap i h =
    IsBytes-set bitmap (i / 8) _ h (byte_bounds _ (i % 8) (h (i / 8)) (omega arith)).0

pub clear_bit-IsBytes : (bitmap : List ℕ) (i : ℕ) → IsBytes bitmap → IsBytes (clear_bit bitmap i)
unfolding clear_bit
clear_bit-IsBytes bitmap i h =
    IsBytes-set bitmap (i / 8) _ h (byte_bounds _ (i % 8) (h (i / 8)) (omega arith)).1

pub length-set_bit : (bitmap : List ℕ) (i : ℕ) → length (set_bit bitmap i) ≡ length bitmap
unfolding set_bit
length-set_bit bitmap i = length-set bitmap _ _

pub length-clear_bit : (bitmap : List ℕ) (i : ℕ) → length (clear_bit bitmap i) ≡ length bitmap
unfolding clear_bit
length-clear_bit bitmap i = length-set bitmap _ _

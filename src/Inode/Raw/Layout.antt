-- ===== src/Inode/Raw/Layout.antt =====
-- The layout of `RawInode` loses nothing: the fields of the bytes of an inode are its fields.
use pengwin.Base.{
  ℕ, zero, suc, ◌+◌, ◌/◌, ◌%◌, ◌^◌, ◌<◌, ◌≡◌, refl, ◌∙◌, ap, arith, List, [], ◌∷◌, ◌++◌, length,
  take, drop, u16_le, u32_le, bytes_u16_le, bytes_u32_le, byte_at, length-append,
}
use pengwin.Inode.Raw.{RawInode, IsRaw, read_from, as_bytes, last_bytes}

take-append {ℓ} : {A : Type ℓ} (n : ℕ) (xs ys : List A) → length xs ≡ n → take n (xs ++ ys) ≡ xs
take-append zero [] ys e = refl
take-append zero (x ∷ xs) ys e = absurd (omega arith)
take-append (suc n) [] ys e = absurd (omega arith)
take-append (suc n) (x ∷ xs) ys e = ap (◌∷◌ x) (take-append n xs ys (omega arith))

take-all {ℓ} : {A : Type ℓ} (n : ℕ) (xs : List A) → length xs ≡ n → take n xs ≡ xs
take-all zero [] e = refl
take-all zero (x ∷ xs) e = absurd (omega arith)
take-all (suc n) [] e = absurd (omega arith)
take-all (suc n) (x ∷ xs) e = ap (◌∷◌ x) (take-all n xs (omega arith))

drop-append {ℓ} :
    {A : Type ℓ} (n : ℕ) (xs ys : List A) (k m : ℕ)
    → length xs ≡ n
    → n + k ≡ m
    → drop m (xs ++ ys) ≡ drop k ys
drop-append n [] ys k m e s = let same : m ≡ k = omega arith in rw same
drop-append n (x ∷ xs) ys k zero e s = absurd (omega arith)
drop-append zero (x ∷ xs) ys k (suc m) e s = absurd (omega arith)
drop-append (suc n) (x ∷ xs) ys k (suc m) e s = drop-append n xs ys k m (omega arith) (omega arith)

byte_at-append :
    (n : ℕ) (xs ys : List ℕ) (k m : ℕ)
    → length xs ≡ n
    → n + k ≡ m
    → byte_at (xs ++ ys) m ≡ byte_at ys k
byte_at-append n [] ys k m e s = let same : m ≡ k = omega arith in rw same
byte_at-append n (x ∷ xs) ys k zero e s = absurd (omega arith)
byte_at-append zero (x ∷ xs) ys k (suc m) e s = absurd (omega arith)
byte_at-append (suc n) (x ∷ xs) ys k (suc m) e s =
    byte_at-append n xs ys k m (omega arith) (omega arith)

u16_word : (v : ℕ) → v < 2 ^ 16 → u16_le (bytes_u16_le v) 0 ≡ v
u16_word v h = omega arith

u32_word : (v : ℕ) → v < 2 ^ 32 → u32_le (bytes_u32_le v) 0 ≡ v
u32_word v h = omega arith

module _ (r : RawInode) (raw : IsRaw r) where
  abbrev tail : List ℕ
  tail = last_bytes r ++ r.osd2

  -- A byte after `i_block`.
  late_byte : (j k : ℕ) → k ≡ j + 100 → byte_at (as_bytes r) k ≡ byte_at tail j
  unfolding as_bytes
  late_byte j k e =
      byte_at-append 36 (take 36 (as_bytes r)) (r.osd1 ++ (r.i_block ++ tail)) (j + 64) k refl
        (omega arith)
      ∙ byte_at-append 4 r.osd1 (r.i_block ++ tail) (j + 60) (j + 64) raw.length-osd1 (omega arith)
      ∙ byte_at-append 60 r.i_block tail j (j + 60) raw.length-i_block (omega arith)

  late_word :
      (j k v : ℕ)
      → k ≡ j + 100
      → v < 2 ^ 32
      → byte_at tail j ≡ v % 256
      → byte_at tail (j + 1) ≡ v / 256 % 256
      → byte_at tail (j + 2) ≡ v / 65536 % 256
      → byte_at tail (j + 2 + 1) ≡ v / 16777216 % 256
      → u32_le (as_bytes r) k ≡ v
  late_word j k v e h p q s t = omega (
    arith,
    late_byte j k e,
    late_byte (j + 1) (k + 1) (omega arith),
    late_byte (j + 2) (k + 2) (omega arith),
    late_byte (j + 2 + 1) (k + 2 + 1) (omega arith),
  )

  -- An inode whose fields have their widths is what is read from the bytes of its layout.
  pub read_from-as_bytes : read_from (as_bytes r) ≡ r
  unfolding read_from as_bytes
  read_from-as_bytes k = record {
    i_mode = u16_word r.i_mode raw.i_mode-lt k;
    i_uid = u16_word r.i_uid raw.i_uid-lt k;
    i_size_lo = u32_word r.i_size_lo raw.i_size_lo-lt k;
    i_atime = u32_word r.i_atime raw.i_atime-lt k;
    i_ctime = u32_word r.i_ctime raw.i_ctime-lt k;
    i_mtime = u32_word r.i_mtime raw.i_mtime-lt k;
    i_dtime = u32_word r.i_dtime raw.i_dtime-lt k;
    i_gid = u16_word r.i_gid raw.i_gid-lt k;
    i_links_count = u16_word r.i_links_count raw.i_links_count-lt k;
    i_blocks_lo = u32_word r.i_blocks_lo raw.i_blocks_lo-lt k;
    i_flags = u32_word r.i_flags raw.i_flags-lt k;
    osd1 = take-append 4 r.osd1 (r.i_block ++ tail) raw.length-osd1 k;
    i_block =
        (ap (take 60) (drop-append 4 r.osd1 (r.i_block ++ tail) 0 4 raw.length-osd1 refl)
            ∙ take-append 60 r.i_block tail raw.length-i_block)
          k;
    i_generation = late_word 0 100 r.i_generation refl raw.i_generation-lt refl refl refl refl k;
    i_file_acl_lo = late_word 4 104 r.i_file_acl_lo refl raw.i_file_acl_lo-lt refl refl refl refl k;
    i_size_hi = late_word 8 108 r.i_size_hi refl raw.i_size_hi-lt refl refl refl refl k;
    i_obso_faddr = late_word 12 112 r.i_obso_faddr refl raw.i_obso_faddr-lt refl refl refl refl k;
    osd2 =
        (ap (take 12) (
              drop-append 4 r.osd1 (r.i_block ++ tail) 76 80 raw.length-osd1 refl
              ∙ drop-append 60 r.i_block tail 16 76 raw.length-i_block refl)
            ∙ take-all 12 r.osd2 raw.length-osd2)
          k;
  }

  pub length-as_bytes : length (as_bytes r) ≡ 128
  unfolding as_bytes
  length-as_bytes = omega (
    arith,
    raw.length-osd1,
    raw.length-i_block,
    raw.length-osd2,
    length-append r.osd1 (r.i_block ++ tail),
    length-append r.i_block tail,
  )

-- ===== src/Dir/Write/Records.antt =====
-- An entry that `write_dirent` of `ext4-core/src/dir_write.rs` writes, read by `parse_dirent` of
-- `dir.rs`.
use pengwin.Base.{
  ℕ, zero, suc, ◌+◌, ◌-◌, ◌^◌, ◌≤◌, ◌<◌, ◌≡◌, ◌≢◌, refl, ◌∙◌, ap, arith, leb, le→leb, le→ltb-false,
  ne→==_false, some, List, [], ◌∷◌, ◌++◌, length, u8, bytes_u16_le, bytes_u32_le, take, slice,
  splice, length-splice, ok, >>=-eq-ok, assert, byte_at, u16_le, u32_le, byte_at-splice_in,
  u16_le-splice_in, u32_le-splice_start,
}
use pengwin.Dir.{DirError, parse_dirent, parse_record}
use pengwin.Dir.Write.{dirent_bytes, write_dirent}

take-splice : (d zs : List ℕ) → length zs ≤ length d → take (length zs) (splice d 0 zs) ≡ zs
take-splice [] [] h = refl
take-splice [] (z ∷ zs) h = absurd (omega arith)
take-splice (x ∷ d) [] h = refl
take-splice (x ∷ d) (z ∷ zs) h = ap (◌∷◌ z) (take-splice d zs (omega arith))

-- The end of what was spliced in.
slice-splice :
    (d : List ℕ) (i : ℕ) (xs zs : List ℕ) (j : ℕ)
    → i + length xs ≡ j
    → j + length zs ≤ length d
    → slice (splice d i (xs ++ zs)) j (length zs) ≡ zs
slice-splice [] i xs [] j e h = refl
slice-splice [] i xs (z ∷ zs) j e h = absurd (omega arith)
slice-splice (x ∷ d) zero [] zs zero e h = take-splice (x ∷ d) zs (omega arith)
slice-splice (x ∷ d) zero [] zs (suc j) e h = absurd (omega arith)
slice-splice (x ∷ d) zero (y ∷ xs) zs zero e h = absurd (omega arith)
slice-splice (x ∷ d) zero (y ∷ xs) zs (suc j) e h =
    slice-splice d zero xs zs j (omega arith) (omega arith)
slice-splice (x ∷ d) (suc i) xs zs zero e h = absurd (omega arith)
slice-splice (x ∷ d) (suc i) xs zs (suc j) e h =
    slice-splice d i xs zs j (omega arith) (omega arith)

module _ (lossy : List ℕ → List ℕ) where
  -- An entry of an inode other than 0, with a name of at most 255 bytes that fits the record, and
  -- the record ending inside the buffer, is read back at its place: the number, the name as
  -- `from_utf8_lossy` gives it, the type, and the length of the record to go on by.
  pub parse_dirent-write_dirent :
      (buf : List ℕ) (offset inode_num : ℕ) (name : List ℕ) (file_type rec_len : ℕ) {buf' : List ℕ}
      → inode_num ≢ 0
      → inode_num < 2 ^ 32
      → length name ≤ 255
      → 8 + length name ≤ rec_len
      → rec_len < 2 ^ 16
      → offset + rec_len ≤ length buf
      → write_dirent {E = DirError} buf offset inode_num name file_type rec_len ≡ ok buf'
      → parse_dirent lossy buf' offset
        ≡ ok (
            some
              (record { inode_num = inode_num; name = lossy name; file_type = file_type }, rec_len))
  unfolding write_dirent dirent_bytes parse_dirent parse_record
  parse_dirent-write_dirent buf offset inode_num name file_type rec_len {buf'} live small short room
        wide inside h =
      let bytes = dirent_bytes inode_num name file_type rec_len in
      let (_, e, h₁) =
        >>=-eq-ok (assert {E = DirError} (leb (offset + 8 + length name) (length buf))) _ h in
      let p : splice buf offset bytes ≡ buf' = cc in
      let fits : offset + length bytes ≤ length buf = omega arith in
      let size : length buf' ≡ length buf = rw (← p) (length-splice buf offset bytes) in
      let f₁ : u32_le buf' offset ≡ inode_num =
        rw (← p) (u32_le-splice_start buf offset bytes fits (omega arith) ∙ omega arith) in
      let f₂ : u16_le buf' (offset + 4) ≡ rec_len =
        rw (← p) (u16_le-splice_in buf offset bytes fits 4 (omega arith) ∙ omega arith) in
      let f₃ : byte_at buf' (offset + 6) ≡ length name =
        rw (← p) (byte_at-splice_in buf offset bytes fits 6 (omega arith) ∙ omega arith) in
      let f₄ : byte_at buf' (offset + 7) ≡ file_type =
        rw (← p) (byte_at-splice_in buf offset bytes fits 7 (omega arith) ∙ refl) in
      let f₅ : slice buf' (offset + 8) (length name) ≡ name = rw (← p) (
        slice-splice buf offset
          (bytes_u32_le inode_num ++ bytes_u16_le rec_len ++ u8 (length name) ∷ file_type ∷ []) name
          (offset + 8) refl (omega arith)) in
      rw
        (
          parse_dirent,
          size,
          le→leb offset (length buf) (omega arith),
          le→ltb-false (length buf - offset) 8 (omega arith),
          parse_record,
          size,
          le→leb (offset + 8) (length buf) (omega arith),
          f₁,
          f₂,
          f₃,
          le→leb 8 rec_len (omega arith),
          le→leb (offset + rec_len) (length buf) inside,
          le→leb (length name) (rec_len - 8) (omega arith),
          ne→==_false inode_num 0 live,
          f₁,
          f₂,
          f₃,
          f₄,
          f₅,
          size,
          le→leb (offset + 8 + length name) (length buf) (omega arith),
        )
        refl

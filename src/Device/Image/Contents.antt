-- ===== src/Device/Image/Contents.antt =====
-- The device of `ext4-core/src/block_device/image_file.rs` on Unix, as the sectors of its file.
use pengwin.Base.{
  ℕ, zero, suc, ◌+◌, ◌*◌, ◌≤◌, ◌≡◌, refl, ◌∙◌, ap, inl, inr, ◌⊎◌, arith, List, [], ◌∷◌, length,
  take, slice, splice, length-splice, ◌==◌, false, Bool-cases, ==_iff, if◌then◌else◌, ok, done,
}
use pengwin.Device.Image.{
  OsFile, unix, ImageFileDevice, sector_offset, read_at_offset, write_at_offset, image_read_sector,
  image_write_sector,
}

-- What POSIX says of a regular file with these contents, of transfers inside it. Any of them may
-- fail; a write that fails may leave anything.
pub record IsFile (F : OsFile) (contents : F.File → List ℕ) : Type 0 where
  pub read_exact :
      (f : F.File) (off : ℕ) {b : List ℕ}
      → off + 512 ≤ length (contents f)
      → F.read_exact_at f off ≡ ok b
      → b ≡ slice (contents f) off 512
  pub write_all :
      (f f' : F.File) (off : ℕ) (b : List ℕ)
      → off + length b ≤ length (contents f)
      → F.write_all_at off b f ≡ done tt f'
      → contents f' ≡ splice (contents f) off b

take-splice_self :
    (xs b : List ℕ) (n : ℕ) → length b ≡ n → n ≤ length xs → take n (splice xs 0 b) ≡ b
take-splice_self xs [] zero e h = refl
take-splice_self xs [] (suc n) e h = absurd (omega arith)
take-splice_self xs (y ∷ b) zero e h = absurd (omega arith)
take-splice_self [] (y ∷ b) (suc n) e h = absurd (omega arith)
take-splice_self (x ∷ xs) (y ∷ b) (suc n) e h =
    ap (◌∷◌ y) (take-splice_self xs b n (omega arith) (omega arith))

slice-splice_self :
    (xs : List ℕ) (i : ℕ) (b : List ℕ) (n : ℕ)
    → length b ≡ n
    → i + n ≤ length xs
    → slice (splice xs i b) i n ≡ b
slice-splice_self xs zero b n e h = take-splice_self xs b n e (omega arith)
slice-splice_self [] (suc i) b n e h = absurd (omega arith)
slice-splice_self (x ∷ xs) (suc i) b n e h = slice-splice_self xs i b n e (omega arith)

slice-splice_before :
    (xs : List ℕ) (i j n : ℕ) (b : List ℕ) → j + n ≤ i → slice (splice xs i b) j n ≡ slice xs j n
slice-splice_before xs i zero zero b h = refl
slice-splice_before [] i j n b h = refl
slice-splice_before (x ∷ xs) zero zero (suc n) b h = absurd (omega arith)
slice-splice_before (x ∷ xs) (suc i) zero (suc n) b h =
    ap (◌∷◌ x) (slice-splice_before xs i zero n b (omega arith))
slice-splice_before (x ∷ xs) zero (suc j) n b h = absurd (omega arith)
slice-splice_before (x ∷ xs) (suc i) (suc j) n b h = slice-splice_before xs i j n b (omega arith)

slice-splice_after :
    (xs : List ℕ) (i j n : ℕ) (b : List ℕ)
    → i + length b ≤ j
    → slice (splice xs i b) j n ≡ slice xs j n
slice-splice_after [] i j n b h = refl
slice-splice_after (x ∷ xs) zero j n [] h = refl
slice-splice_after (x ∷ xs) zero zero n (y ∷ b) h = absurd (omega arith)
slice-splice_after (x ∷ xs) zero (suc j) n (y ∷ b) h =
    slice-splice_after xs zero j n b (omega arith)
slice-splice_after (x ∷ xs) (suc i) zero n b h = absurd (omega arith)
slice-splice_after (x ∷ xs) (suc i) (suc j) n b h = slice-splice_after xs i j n b (omega arith)

module _ (F : OsFile) (contents : F.File → List ℕ) where
  -- The file holds all sectors of the device, as `open` finds it.
  abbrev pub IsWhole : ImageFileDevice F → Type 0
  IsWhole d = d.sectors * 512 ≤ length (contents d.file)

  abbrev pub sector : ImageFileDevice F → ℕ → List ℕ
  sector d i = slice (contents d.file) (i * 512) 512

  ne_order : (i j : ℕ) → (j == i) ≡ false → (suc j ≤ i) ⊎ (suc i ≤ j)
  ne_order i j h = ground arith

  sector-splice :
      (d : ImageFileDevice F) (i j : ℕ) (b : List ℕ)
      → suc i ≤ d.sectors
      → IsWhole d
      → length b ≡ 512
      → slice (splice (contents d.file) (i * 512) b) (j * 512) 512
        ≡ (if j == i then b else sector d j)
  sector-splice d i j b inside whole size = elim (Bool-cases (j == i)) [
    | inl here ↦
        let same : j ≡ i = (==_iff j i).0 here in
        rw (here, same) (slice-splice_self (contents d.file) (i * 512) b 512 size (omega arith))
    | inr apart ↦ rw apart (elim (ne_order i j apart) [
      | inl before ↦ slice-splice_before (contents d.file) (i * 512) (j * 512) 512 b (omega arith)
      | inr after ↦ slice-splice_after (contents d.file) (i * 512) (j * 512) 512 b (omega arith)
    ])
  ]

  module _ (file : IsFile F contents) where
    image_read_facts :
        (d : ImageFileDevice F) (i : ℕ) {b : List ℕ}
        → image_read_sector F unix d i ≡ ok b
        → (suc i ≤ d.sectors) × (F.read_exact_at d.file (i * 512) ≡ ok b)
    unfolding image_read_sector sector_offset read_at_offset
    image_read_facts d i {b} h = (ground arith, ground arith)

    image_write_facts :
        (d d' : ImageFileDevice F) (i : ℕ) (b : List ℕ)
        → image_write_sector F unix i b d ≡ done tt d'
        → (suc i ≤ d.sectors)
          × (d'.sectors ≡ d.sectors)
          × (F.write_all_at (i * 512) b d.file ≡ done tt d'.file)
    unfolding image_write_sector sector_offset write_at_offset
    image_write_facts d d' i b h = (ground arith, ground arith, ground arith)

    -- Compiled for Unix, over a file that behaves as documented and holds all sectors of the
    -- device, after a successful write of 512 bytes to sector `i` the device has the same sectors,
    -- the file still holds them, and a sector that is read is the bytes written where it is
    -- sector `i`, and else the bytes that the file held there before.
    pub image_write_sector-Reads :
        (d d' : ImageFileDevice F) (i j : ℕ) (b c : List ℕ)
        → IsWhole d
        → length b ≡ 512
        → image_write_sector F unix i b d ≡ done tt d'
        → image_read_sector F unix d' j ≡ ok c
        → (d'.sectors ≡ d.sectors) × IsWhole d' × (c ≡ (if j == i then b else sector d j))
    image_write_sector-Reads d d' i j b c whole size h read =
        let (inside, same, wrote) = image_write_facts d d' i b h in
        let put = file.write_all d.file d'.file (i * 512) b (omega arith) wrote in
        let kept : length (contents d'.file) ≡ length (contents d.file) =
          rw put (length-splice (contents d.file) (i * 512) b) in
        let (inside', got) = image_read_facts d' j read in
        let is : c ≡ slice (splice (contents d.file) (i * 512) b) (j * 512) 512 =
          rw put at (file.read_exact d'.file (j * 512) (omega arith) got) in
        (same, omega arith, is ∙ sector-splice d i j b inside whole size)

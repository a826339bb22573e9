-- ===== src/Dir/Write.antt =====
-- `ext4-core/src/dir_write.rs`: directories, changed inside a transaction.
pub mod Operations
pub mod Records
pub mod Rename
use pengwin.Base.{
  ℕ, zero, suc, ◌+◌, ◌-◌, ◌*◌, ◌/◌, ◌%◌, ◌^◌, Bool, true, false, not, ◌&&◌, ltb, leb, ◌==◌,
  if◌then◌else◌, Option, none, some, List, [], ◌∷◌, ◌++◌, length, splice, slice, byte_at, u16_le,
  u32_le, bytes_u16_le, bytes_u32_le, u8, u16, div_ceil, Outcome, ok, err, panic, map_err, ensure,
  assert,
}
use pengwin.Base.Fallible.{◌>>=◌, ◌>>◌}
use pengwin.Device.{BlockDeviceError}
use pengwin.Inode.{InodeError}
use pengwin.Inode.Write.{InodeWriteError}
use pengwin.Alloc.Error.{AllocError}
use pengwin.Extent.{ExtentError}
use pengwin.Extent.Write.{ExtentWriteError}
use pengwin.WriteState.{copy_at}
use pengwin.Dir.{same_name}

-- The journal's error, that `pin_block` never returns, is left out.
pub data DirWriteError : Type 0 where
  already_exists : List ℕ → DirWriteError
  not_found : List ℕ → DirWriteError
  not_empty : DirWriteError
  hard_link_to_directory : DirWriteError
  too_many_links : DirWriteError
  name_too_long : DirWriteError
  inode_write : InodeWriteError → DirWriteError
  alloc : AllocError → DirWriteError
  block_device : BlockDeviceError → DirWriteError
  inode : InodeError → DirWriteError
  extent : ExtentError → DirWriteError
  extent_write : ExtentWriteError → DirWriteError
  block_number_overflow : DirWriteError
  size_too_large : DirWriteError
  invalid_rec_len : ℕ → DirWriteError

-- The header and the name, rounded up to a multiple of 4.
unfoldable pub min_rec_len : ℕ → ℕ
min_rec_len name_len = u16 ((8 + name_len + 3) / 4 * 4)

-- The fields of a record, in one run of bytes.
unfoldable pub dirent_bytes : ℕ → List ℕ → ℕ → ℕ → List ℕ
dirent_bytes inode_num name file_type rec_len =
    bytes_u32_le inode_num ++ bytes_u16_le rec_len ++ u8 (length name) ∷ file_type ∷ name

unfoldable pub write_dirent {ℓ} :
    {E : Type ℓ} → List ℕ → ℕ → ℕ → List ℕ → ℕ → ℕ → Outcome E (List ℕ)
write_dirent buf offset inode_num name file_type rec_len = do
  assert (leb (offset + 8 + length name) (length buf))
  ok (splice buf offset (dirent_bytes inode_num name file_type rec_len))

-- What `try_insert_in_block` does with one record: the block with the new entry, or nothing.
unfoldable pub insert_at : List ℕ → List ℕ → ℕ → ℕ → ℕ → Outcome DirWriteError (Option (List ℕ))
insert_at block_data name child_inode_num file_type pos =
    let needed = min_rec_len (length name) in
    let rec_len = u16_le block_data (pos + 4) in
    let actual = min_rec_len (byte_at block_data (pos + 6)) in
    let reused =
      write_dirent block_data pos child_inode_num name file_type rec_len >>= (λ b. ok (some b)) in
    let appended = copy_at block_data (pos + 4) (bytes_u16_le actual) >>= (λ b.
      write_dirent b (pos + actual) child_inode_num name file_type (rec_len - actual)
      >>= (λ b'. ok (some b'))) in
    if u32_le block_data pos == 0
    then (if leb needed rec_len then reused else ok none)
    else if leb (length block_data) (pos + rec_len) && leb needed (rec_len - actual)
    then appended
    else ok none

-- The loop from `pos`; a loop without end is a panic.
unfoldable pub insert_loop :
    List ℕ → List ℕ → ℕ → ℕ → ℕ → ℕ → Outcome DirWriteError (Option (List ℕ))
insert_loop block_data name child_inode_num file_type zero pos = panic
insert_loop block_data name child_inode_num file_type (suc fuel) pos =
    elim (leb (pos + 8) (length block_data)) [
      | false ↦ ok none
      | true ↦ do
        let rec_len = u16_le block_data (pos + 4)
        ensure (leb 8 rec_len) (invalid_rec_len rec_len)
        found ← insert_at block_data name child_inode_num file_type pos
        elim found [
          | some b ↦ ok (some b)
          | none ↦ insert_loop block_data name child_inode_num file_type fuel (pos + rec_len)
        ]
    ]

unfoldable pub try_insert_in_block :
    List ℕ → List ℕ → ℕ → ℕ → Outcome DirWriteError (Option (List ℕ))
try_insert_in_block block_data name child_inode_num file_type =
    insert_loop block_data name child_inode_num file_type (suc (length block_data)) 0

-- The loop that four of the functions run over the records of a block, up to the first for which
-- `test` has an answer; a record length under 8 ends it.
unfoldable pub scan_loop {ℓ} :
    {T : Type ℓ}
    → (ℕ → Outcome DirWriteError (Option T))
    → List ℕ
    → ℕ
    → ℕ
    → Outcome DirWriteError (Option T)
scan_loop test block_data zero pos = panic
scan_loop test block_data (suc fuel) pos =
    let rec_len = u16_le block_data (pos + 4) in
    elim (leb (pos + 8) (length block_data) && leb 8 rec_len) [
      | false ↦ ok none
      | true ↦ do
        found ← test pos
        elim found [ some r ↦ ok (some r) | none ↦ scan_loop test block_data fuel (pos + rec_len) ]
    ]

abbrev pub scan {ℓ} :
    {T : Type ℓ}
    → (ℕ → Outcome DirWriteError (Option T))
    → List ℕ
    → Outcome DirWriteError (Option T)
scan test block_data = scan_loop test block_data (suc (length block_data)) 0

-- `&block_data[from..from + n]`, which panics past the end.
unfoldable pub name_at {ℓ} : {E : Type ℓ} → List ℕ → ℕ → ℕ → Outcome E (List ℕ)
name_at block_data from n = do
  assert (leb (from + n) (length block_data))
  ok (slice block_data from n)

-- Whether the live record at `pos` has this name.
unfoldable pub matches {ℓ} : {E : Type ℓ} → List ℕ → List ℕ → ℕ → Outcome E Bool
matches block_data name pos =
    elim (not (u32_le block_data pos == 0) && byte_at block_data (pos + 6) == length name) [
      | false ↦ ok false
      | true ↦
          name_at block_data (pos + 8) (length name)
          >>= (λ entry_name. ok (same_name entry_name name))
    ]

abbrev pub when_true {ℓ} : {T : Type ℓ} → Bool → T → Option T
when_true true r = some r
when_true false r = none

-- The test of `dir_lookup_entry`.
unfoldable pub lookup_test : List ℕ → List ℕ → ℕ → Outcome DirWriteError (Option (ℕ × ℕ))
lookup_test block_data name pos = do
  hit ← matches block_data name pos
  ok (when_true hit (u32_le block_data pos, byte_at block_data (pos + 7)))

-- The test of `dir_add_entry`, which cuts the name at the end of the record.
unfoldable pub exists_test : List ℕ → List ℕ → ℕ → Outcome DirWriteError (Option (Unit {0}))
exists_test block_data name pos =
    let rec_len = u16_le block_data (pos + 4) in
    let n = if leb (length name) (rec_len - 8) then length name else rec_len - 8 in
    elim (not (u32_le block_data pos == 0) && byte_at block_data (pos + 6) == length name) [
      | false ↦ ok none
      | true ↦
          name_at block_data (pos + 8) n
          >>= (λ entry_name. ok (when_true (same_name entry_name name) tt))
    ]

abbrev pub dot : List ℕ
dot = 46 ∷ []

abbrev pub dotdot : List ℕ
dotdot = 46 ∷ 46 ∷ []

-- The test of `dir_is_empty`.
unfoldable pub other_test : List ℕ → ℕ → Outcome DirWriteError (Option (Unit {0}))
other_test block_data pos = elim (u32_le block_data pos == 0) [
  | true ↦ ok none
  | false ↦ name_at block_data (pos + 8) (byte_at block_data (pos + 6)) >>= (λ entry_name.
      ok (when_true (not (same_name entry_name dot) && not (same_name entry_name dotdot)) tt))
]

-- The test of `update_dotdot`, with the block that it makes.
unfoldable pub dotdot_test : List ℕ → ℕ → ℕ → Outcome DirWriteError (Option (List ℕ))
dotdot_test block_data new_parent_inode pos = do
  hit ← matches block_data dotdot pos
  ok (when_true hit (splice block_data pos (bytes_u32_le new_parent_inode)))

-- The block without the matching record at `pos`: the live record before it takes its bytes, or,
-- if there is none, its inode number becomes 0. The sum of the lengths is one of 16 bits.
unfoldable pub removed : List ℕ → Option ℕ → ℕ → List ℕ
removed block_data none pos = splice block_data pos (bytes_u32_le 0)
removed block_data (some prev_pos) pos =
    splice block_data (prev_pos + 4)
      (bytes_u16_le (u16 (u16_le block_data (prev_pos + 4) + u16_le block_data (pos + 4))))

-- The loop of `dir_remove_entry` in one block: the inode number and the new block.
unfoldable pub remove_loop :
    List ℕ → List ℕ → ℕ → ℕ → Option ℕ → Outcome DirWriteError (Option (ℕ × List ℕ))
remove_loop block_data name zero pos prev = panic
remove_loop block_data name (suc fuel) pos prev = elim (leb (pos + 8) (length block_data)) [
  | false ↦ ok none
  | true ↦ do
    let rec_len = u16_le block_data (pos + 4)
    let inum = u32_le block_data pos
    ensure (leb 8 rec_len) (invalid_rec_len rec_len)
    hit ← matches block_data name pos
    elim hit [
      | true ↦ ok (some (inum, removed block_data prev pos))
      | false ↦
          remove_loop block_data name fuel (pos + rec_len) (if inum == 0 then prev else some pos)
    ]
]

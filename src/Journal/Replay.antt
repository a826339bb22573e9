-- ===== src/Journal/Replay.antt =====
-- `ext4-core/src/journal/replay.rs`: committed transactions of the log, written to their places.
pub mod Bounds
use pengwin.Base.{
  ℕ, zero, suc, ◌+◌, ◌-◌, ◌*◌, ◌/◌, ◌^◌, Bool, true, false, not, ◌&&◌, ◌||◌, ltb, leb, ◌==◌,
  if◌then◌else◌, Option, none, some, List, [], ◌∷◌, ◌++◌, length, get_elem?, splice, u32, u64,
  u16_be, u32_be, bytes_u32_be, bit_and, Outcome, ok, err, map_err, ok_or, ensure, M, done, pure,
  reads, map_fail,
}
use pengwin.Base.Fallible
use pengwin.Base.Stateful.{◌>>=◌, ◌>>◌, abort}
use pengwin.Device.{BlockDevice, BlockDeviceError, read_sectors, write_sectors}
use pengwin.Superblock.{Superblock}
use pengwin.WriteState.{resize}
use pengwin.Journal.Format.{
  JournalError, JournalSuperblock, journal_magic, block_out_of_range, block_device, invalid_buffer,
  is_clean, has_64bit,
}
use pengwin.Journal.Writer.{descriptor_type, commit_type, revoke_type}
use pengwin.Journal.Load.{Journal, read_block}

-- `JournalBlockHeader` and `JournalBlockTag`.
pub record JournalBlockHeader : Type 0 where
  pub h_magic : ℕ
  pub h_blocktype : ℕ
  pub h_sequence : ℕ

abbrev pub header_of : List ℕ → JournalBlockHeader
header_of buf = record {
  h_magic = u32_be buf 0;
  h_blocktype = u32_be buf 4;
  h_sequence = u32_be buf 8;
}

pub record JournalBlockTag : Type 0 where
  pub t_blocknr : ℕ
  pub t_flags : ℕ
  pub t_blocknr_high : ℕ

abbrev pub tag_at : List ℕ → ℕ → JournalBlockTag
tag_at buf offset = record {
  t_blocknr = u32_be buf offset;
  t_flags = u16_be buf (offset + 4);
  t_blocknr_high = u16_be buf (offset + 6);
}

-- `flags & flag != 0`.
abbrev pub has_flag : ℕ → ℕ → Bool
has_flag flags flag = not (bit_and flags flag == 0)

abbrev pub same_uuid : ℕ
same_uuid = 0x1

abbrev pub deleted : ℕ
deleted = 0x2

abbrev pub escaped : ℕ
escaped = 0x4

abbrev pub last_tag : ℕ
last_tag = 0x8

unfoldable pub tag_block : JournalSuperblock → JournalBlockTag → ℕ
tag_block sb tag =
    if has_64bit sb then tag.t_blocknr_high * 2 ^ 32 + tag.t_blocknr else tag.t_blocknr

-- The set of revoked blocks as a list.
abbrev pub is_revoked : List ℕ → ℕ → Bool
is_revoked [] block = false
is_revoked (b ∷ rest) block = b == block || is_revoked rest block

unfoldable pub advance_jblock : Journal → ℕ → ℕ
advance_jblock journal jblock =
    let next = u32 (jblock + 1) in
    if leb journal.sb.total_blocks next then journal.sb.first_usable_block else next

-- The magic number comes back at the start of an escaped block.
unfoldable pub unescape : ℕ → List ℕ → List ℕ
unescape flags bytes =
    if has_flag flags escaped && leb 4 (length bytes)
    then splice bytes 0 (0xC0 ∷ 0x3B ∷ 0x39 ∷ 0x98 ∷ [])
    else bytes

-- The entries of a revoke block from `off`, with `n` left.
unfoldable pub revoked_loop : List ℕ → ℕ → ℕ → List ℕ → List ℕ
revoked_loop buf off zero revoke_set = revoke_set
revoked_loop buf off (suc n) revoke_set =
    let rest = revoked_loop buf (off + 4) n (u32_be buf off ∷ revoke_set) in
    if ltb (length buf) (off + 4) then revoke_set else rest

-- No more entries than the block has room for are read, whatever the count says.
unfoldable pub collect_revoked_blocks : List ℕ → List ℕ → List ℕ
collect_revoked_blocks buf revoke_set =
    let n = u32_be buf 12 in
    let all = revoked_loop buf 16 (if ltb n (length buf) then n else length buf) revoke_set in
    if ltb (length buf) 16 then revoke_set else all

-- Whether the block is the commit block of this sequence number.
unfoldable pub is_commit : ℕ → List ℕ → Bool
is_commit sequence buf =
    let h = header_of buf in
    leb 12 (length buf)
    && h.h_magic == journal_magic
    && h.h_sequence == sequence
    && h.h_blocktype == commit_type

unfoldable pub clean_mark : List ℕ → ℕ → Outcome JournalError (List ℕ)
clean_mark bytes next_seq =
    Fallible.◌>>◌ (ensure (leb 1024 (length bytes)) invalid_buffer)
      (ok (splice (splice bytes 28 (bytes_u32_be 0)) 24 (bytes_u32_be next_seq)))

-- What one turn of the loop finds: the end of the log, or where to go on.
pub data Turn : Type 0 where
  stop : Turn
  go_on : ℕ → ℕ → List ℕ → Turn

module _ (D : BlockDevice) (fs_sb : Superblock) (journal : Journal) where
  module _ (dev : D.Dev) (revoke_set : List ℕ) where
    -- The data of one tag, unless its block is revoked or deleted.
    unfoldable pub tag_data : ℕ → JournalBlockTag → Outcome JournalError (List (ℕ × List ℕ))
    tag_data jblock tag =
        let fs_block = tag_block journal.sb tag in
        elim (not (is_revoked revoke_set fs_block) && not (has_flag tag.t_flags deleted)) [
          | false ↦ ok []
          | true ↦
              Fallible.◌>>=◌ (read_block D dev fs_sb journal jblock)
                λ bytes. ok ((fs_block, resize (unescape tag.t_flags bytes) fs_sb.block_size) ∷ [])
        ]

    -- The tags from `offset`: every turn moves by 12 bytes, so the length is fuel enough.
    unfoldable pub tags_loop :
        List ℕ → ℕ → ℕ → ℕ → List (ℕ × List ℕ) → Outcome JournalError (ℕ × List (ℕ × List ℕ))
    tags_loop buf zero offset jblock pending = ok (jblock, pending)
    tags_loop buf (suc fuel) offset jblock pending =
        let tag = tag_at buf offset in
        let next = offset + 12 + (if has_flag tag.t_flags same_uuid then 0 else 16) in
        elim (leb (offset + 12) (length buf)) [
          | false ↦ ok (jblock, pending)
          | true ↦ Fallible.◌>>=◌ (tag_data jblock tag) λ new.
              elim (has_flag tag.t_flags last_tag) [
                | true ↦ ok (advance_jblock journal jblock, pending ++ new)
                | false ↦ tags_loop buf fuel next (advance_jblock journal jblock) (pending ++ new)
              ]
        ]

    unfoldable pub parse_descriptor_block : ℕ → Outcome JournalError (ℕ × List (ℕ × List ℕ))
    parse_descriptor_block desc_jblock =
        Fallible.◌>>=◌ (read_block D dev fs_sb journal desc_jblock)
          λ buf. tags_loop buf (length buf) 12 (advance_jblock journal desc_jblock) []

  abbrev pub Replaying : Type 0 → Type 0
  Replaying A = M D.Dev JournalError A

  unfoldable pub apply_writes : List (ℕ × List ℕ) → Replaying (Unit {0})
  apply_writes [] = pure tt
  apply_writes ((fs_block, bytes) ∷ rest) = do
    map_fail block_device (write_sectors D (u64 (fs_block * (fs_sb.block_size / 512))) bytes)
    apply_writes rest

  unfoldable pub mark_journal_clean : ℕ → Replaying (Unit {0})
  mark_journal_clean next_seq = do
    phys ← reads (λ dev. ok_or (block_out_of_range 0) (get_elem? journal.blocks 0))
    let sectors_per_block = fs_sb.block_size / 512
    let start_sector = u64 (phys * sectors_per_block)
    bytes ← reads (λ dev. map_err block_device (read_sectors D dev start_sector sectors_per_block))
    marked ← reads (λ dev. clean_mark bytes next_seq)
    map_fail block_device (write_sectors D start_sector marked)
    map_fail block_device D.flush

  -- A descriptor block: its writes are made once the commit block is seen.
  unfoldable pub replay_descriptor : ℕ → ℕ → List ℕ → Replaying Turn
  replay_descriptor sequence jblock revoke_set = do
    (next_jblock, pending) ← reads (λ dev. parse_descriptor_block dev revoke_set jblock)
    commit_buf ← reads (λ dev. read_block D dev fs_sb journal next_jblock)
    elim (is_commit sequence commit_buf) [
      | false ↦ pure stop
      | true ↦ do
        apply_writes pending
        pure (go_on (u32 (sequence + 1)) (advance_jblock journal next_jblock) revoke_set)
    ]

  unfoldable pub replay_block : ℕ → ℕ → List ℕ → List ℕ → Replaying Turn
  replay_block sequence jblock revoke_set buf =
      let h = header_of buf in
      let next = advance_jblock journal jblock in
      elim (leb 12 (length buf) && h.h_magic == journal_magic && h.h_sequence == sequence) [
        | false ↦ pure stop
        | true ↦ elim (h.h_blocktype == descriptor_type) [
          | true ↦ replay_descriptor sequence jblock revoke_set
          | false ↦ elim (h.h_blocktype == commit_type) [
            | true ↦ pure (go_on (u32 (sequence + 1)) next revoke_set)
            | false ↦ elim (h.h_blocktype == revoke_type) [
              | true ↦ pure (go_on sequence next (collect_revoked_blocks buf revoke_set))
              | false ↦ pure stop
            ]
          ]
        ]
      ]

  -- The loop, on fuel: the code has no bound, and revoke blocks of one sequence number all around
  -- the log keep it going for ever, for which the outcome is that of a panic. The sequence number
  -- after the last transaction.
  unfoldable pub replay_loop : ℕ → ℕ → ℕ → List ℕ → Replaying ℕ
  replay_loop zero sequence jblock revoke_set = λ dev. abort
  replay_loop (suc fuel) sequence jblock revoke_set = do
    buf ← reads (λ dev. read_block D dev fs_sb journal jblock)
    turn ← replay_block sequence jblock revoke_set buf
    elim turn [
      | stop ↦ pure sequence
      | go_on sequence' jblock' revoke_set' ↦ replay_loop fuel sequence' jblock' revoke_set'
    ]

  unfoldable pub replay : ℕ → Replaying (Unit {0})
  replay fuel = elim (is_clean journal.sb) [
    | true ↦ pure tt
    | false ↦ do
      next_seq ← replay_loop fuel journal.sb.start_sequence journal.sb.start_block []
      mark_journal_clean next_seq
  ]

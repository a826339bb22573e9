-- ===== src/Tests/Mounting.antt =====
-- Mounting and replaying on small images.
use pengwin.Base.{
  ℕ, ◌==◌, ◌<◌, ◌≤◌, ◌≡◌, refl, arith, if◌then◌else◌, List, [], ◌∷◌, ◌++◌, replicate, u16, done, ok,
}
use pengwin.Device.{read_loop, read_sectors, write_loop, write_sectors}
use pengwin.Superblock.{
  Superblock, check_format, parse_inode_size, check_geometry, until_zero, from_raw, parse_bytes,
  parse,
}
use pengwin.Journal.Load.{Journal}
use pengwin.Journal.Replay.{
  go_on, advance_jblock, revoked_loop, collect_revoked_blocks, replay_block,
}
use pengwin.Journal.Replay.Bounds.{replay_block-IsTurn}
use pengwin.Journal.Mount.{
  patch_state, change_state, with_valid, without_valid, set_dirty_flag, clear_dirty_flag, unmount,
}
use pengwin.Journal.Mount.Flags.{parse-set_dirty_flag, parse-unmount}
use pengwin.Tests.Memory.{memory, memory-IsLawful, read_memory, write_memory, is_sector, all_bytes}
use pengwin.Tests.Image.{small_sb, final}

-- A superblock in sectors 2 and 3, with the state in its bytes 58 and 59.
abbrev sectors : ℕ → ℕ → List ℕ
sectors state i =
    if i == 2
    then replicate 32 0
      ++ 1
        ∷ 0
        ∷ 0
        ∷ 0
        ∷ 0
        ∷ 0
        ∷ 0
        ∷ 0
        ∷ 1
        ∷ (replicate 15 0 ++ 0x53 ∷ 0xEF ∷ state ∷ replicate 453 0)
    else replicate 512 0

abbrev parsed : ℕ → Superblock
parsed state = record {
  block_size = 1024;
  blocks_count = 0;
  inodes_count = 0;
  inodes_per_group = 1;
  blocks_per_group = 1;
  first_data_block = 0;
  uuid = replicate 16 0;
  volume_name = [];
  desc_size = 32;
  feature_incompat = 0;
  feature_ro_compat = 0;
  inode_size = 128;
  state = state;
}

parse_five : parse memory (sectors 5) ≡ ok (parsed 5)
unfolding check_format parse_inode_size check_geometry until_zero from_raw parse_bytes parse
    read_loop read_sectors read_memory is_sector all_bytes
parse_five = refl

parse_four : parse memory (sectors 4) ≡ ok (parsed 4)
unfolding check_format parse_inode_size check_geometry until_zero from_raw parse_bytes parse
    read_loop read_sectors read_memory is_sector all_bytes
parse_four = refl

abbrev dirty : ℕ → List ℕ
dirty = final (set_dirty_flag memory (sectors 5)) (sectors 5)

set_dirty : set_dirty_flag memory (sectors 5) ≡ done tt dirty
unfolding patch_state change_state set_dirty_flag read_loop read_sectors write_loop write_sectors
    read_memory write_memory is_sector all_bytes
set_dirty = refl

parse-set_dirty_flag_example :
    parse memory dirty ≡ ok (record (parsed 5) { state = u16 (without_valid 5) })
parse-set_dirty_flag_example =
    parse-set_dirty_flag memory memory-IsLawful (sectors 5) dirty parse_five set_dirty

abbrev unmounted : ℕ → List ℕ
unmounted = final (unmount memory (sectors 4)) (sectors 4)

unmounting : unmount memory (sectors 4) ≡ done tt unmounted
unfolding patch_state change_state clear_dirty_flag unmount read_loop read_sectors write_loop
    write_sectors read_memory write_memory is_sector all_bytes
unmounting = refl

parse-unmount_example :
    parse memory unmounted ≡ ok (record (parsed 4) { state = u16 (with_valid 4) })
parse-unmount_example =
    parse-unmount memory memory-IsLawful (sectors 4) unmounted parse_four unmounting

abbrev log : Journal
log = record {
  blocks = 20 ∷ 21 ∷ 22 ∷ 23 ∷ [];
  sb = record {
    block_size = 1024;
    total_blocks = 4;
    first_usable_block = 1;
    start_sequence = 7;
    start_block = 1;
    errno = 0;
    feature_incompat = 0;
    uuid = [];
  };
}

-- A revoke block at the end of the log, of sequence 7, that revokes block 9.
abbrev revoke_block : List ℕ
revoke_block =
    0xC0 ∷ 0x3B ∷ 0x39 ∷ 0x98 ∷ 0 ∷ 0 ∷ 0 ∷ 5 ∷ 0 ∷ 0 ∷ 0 ∷ 7 ∷ 0 ∷ 0 ∷ 0 ∷ 1 ∷ 0 ∷ 0 ∷ 0 ∷ 9 ∷ []

revoke_turn :
    replay_block memory small_sb log 7 3 [] revoke_block (sectors 1)
    ≡ done (go_on 7 1 (9 ∷ [])) (sectors 1)
unfolding replay_block collect_revoked_blocks revoked_loop advance_jblock
revoke_turn = refl

replay_block-IsTurn_example : (1 ≤ 1) × (1 < 4)
replay_block-IsTurn_example =
    replay_block-IsTurn memory small_sb log (omega arith, omega arith) 7 3 [] revoke_block
      (sectors 1) (sectors 1) (omega arith, omega arith) revoke_turn

-- ===== src/Tests/Extents.antt =====
-- Extents and the contents of a file on the small image.
use pengwin.Base.{
  ℕ, ◌+◌, ◌-◌, ◌*◌, ◌<◌, ◌≤◌, ◌≡◌, refl, arith, ◌==◌, if◌then◌else◌, min, true, false, List, [],
  ◌∷◌, ◌++◌, length, replicate, byte_at, some, Outcome, ok, done,
}
use pengwin.Device.{read_loop, read_sectors, write_loop, write_sectors}
use pengwin.GroupDesc.{get, adjust, adjust_free_blocks}
use pengwin.Journal.Transaction.{upsert, pin_block, revoke_block}
use pengwin.WriteState.{WriteState, write_through, resize, copy_at}
use pengwin.Alloc.Bitmap.{is_allocated, clear_bit, free}
use pengwin.Alloc.Blocks.{
  patch_free_blocks, load_bitmap, flush_bitmap, update_gdt_free_blocks, free_block,
}
use pengwin.Extent.{ExtentLeaf, ExtentHeader, leaf_at, read_header}
use pengwin.Extent.Leaves.{find_phys, partition_point, resolve_lblock, push_leaves}
use pengwin.Extent.Ordered.{IsOrdered, resolve_lblock-find_phys}
use pengwin.Extent.Iter.{ExtentIter, next}
use pengwin.Extent.Iter.Order.{IsSynced, next-IsSynced}
use pengwin.Extent.Write.{read_block, parse_header}
use pengwin.Extent.Write.Nodes.{
  make_header, header_bytes, leaf_bytes, push_entry, coalesce_leaf_in_buf, coalesce_last,
  max_extent_len,
}
use pengwin.Extent.Write.Nodes.Entries.{push_entry-push_leaves}
use pengwin.Extent.Write.Nodes.Coalesce.{coalesce_last-bounds}
use pengwin.Extent.Write.Truncate.{free_and_revoke, free_children, free_subtree}
use pengwin.Extent.Write.Truncate.Subtree.{free_subtree-empty}
use pengwin.File.{FileReader, read_chunk, read_loop as read_blocks, read}
use pengwin.File.Content.{IsContent, read-IsContent}
use pengwin.Tests.Memory.{memory, memory-IsLawful, read_memory, write_memory, is_sector, all_bytes}
use pengwin.Tests.Image.{small_sb, small_sb-IsValid, small_sectors, small, final}

-- Blocks 0 and 1 at 10 and 11, blocks 4 to 6 at 20 to 22.
abbrev two_leaves : List ExtentLeaf
two_leaves =
    record { ee_block = 0; ee_len = 2; ee_start_hi = 0; ee_start_lo = 10 }
    ∷ record { ee_block = 4; ee_len = 3; ee_start_hi = 0; ee_start_lo = 20 }
    ∷ []

two_leaves-IsOrdered : IsOrdered two_leaves
two_leaves-IsOrdered = (
  (omega arith, omega arith),
  omega arith,
  (omega arith, tt),
  ((omega arith, omega arith), omega arith, tt, tt),
)

resolve_lblock-find_phys_example : resolve_lblock two_leaves 5 ≡ find_phys two_leaves 5
resolve_lblock-find_phys_example =
    resolve_lblock-find_phys two_leaves 5 two_leaves-IsOrdered (omega arith)

abbrev iterator : ExtentIter
iterator = record {
  leaves = two_leaves;
  next_lblock = 0;
  total_lblocks = 8;
  leaf_idx = 0;
  is_done = false;
}

iterator-IsSynced : IsSynced iterator
iterator-IsSynced = record { ordered = two_leaves-IsOrdered; ended = tt }

next-IsSynced_example :
    ((next iterator).0 ≡ some (ok (0, find_phys two_leaves 0)))
    × ((next iterator).1.next_lblock ≡ 0 + 1)
    × ((next iterator).1.leaves ≡ two_leaves)
    × IsSynced (next iterator).1
next-IsSynced_example = next-IsSynced iterator iterator-IsSynced refl (omega arith) (omega arith)

-- A root with one leaf and room for more.
abbrev root : List ℕ
root =
    0x0A
    ∷ 0xF3
    ∷ 1
    ∷ 0
    ∷ 4
    ∷ 0
    ∷ 0
    ∷ 0
    ∷ 0
    ∷ 0
    ∷ 0
    ∷ 0
    ∷ 0
    ∷ 0
    ∷ 0
    ∷ 0
    ∷ 3
    ∷ 0
    ∷ 0
    ∷ 0
    ∷ 100
    ∷ 0
    ∷ 0
    ∷ 0
    ∷ replicate 36 0

abbrev new_leaf : ExtentLeaf
new_leaf = record { ee_block = 3; ee_len = 2; ee_start_hi = 0; ee_start_lo = 200 }

abbrev ok_or_empty {ℓ} : {E : Type ℓ} → Outcome E (List ℕ) → List ℕ
ok_or_empty m = elim m [ ok b ↦ b | _ ↦ [] ]

abbrev pushed : List ℕ
pushed = ok_or_empty (push_entry root (leaf_bytes new_leaf) 1 4 0)

push_two : push_entry root (leaf_bytes new_leaf) 1 4 0 ≡ ok pushed
unfolding push_entry copy_at leaf_bytes header_bytes
push_two = refl

push_entry-push_leaves_example :
    (read_header pushed ≡ make_header (1 + 1) 4 0)
    × (push_leaves pushed 0 (1 + 1) [] ≡ push_leaves root 0 1 [] ++ new_leaf ∷ [])
    × (length pushed ≡ length root)
push_entry-push_leaves_example =
    push_entry-push_leaves root new_leaf 1 4 0 (omega arith, omega arith, omega arith, omega arith)
      (omega arith) (omega arith) (omega arith) push_two

abbrev longer_root : List ℕ
longer_root =
    0x0A
    ∷ 0xF3
    ∷ 1
    ∷ 0
    ∷ 4
    ∷ 0
    ∷ 0
    ∷ 0
    ∷ 0
    ∷ 0
    ∷ 0
    ∷ 0
    ∷ 0
    ∷ 0
    ∷ 0
    ∷ 0
    ∷ 8
    ∷ 0
    ∷ 0
    ∷ 0
    ∷ 100
    ∷ 0
    ∷ 0
    ∷ 0
    ∷ replicate 36 0

five_more : coalesce_last root 1 103 5 ≡ ok (true, longer_root)
unfolding coalesce_last coalesce_leaf_in_buf leaf_at copy_at
five_more = refl

coalesce_last-bounds_example :
    (front : List ExtentLeaf) × (leaf : ExtentLeaf) × (push_leaves root 0 1 [] ≡ front ++ leaf ∷ [])
    × (push_leaves longer_root 0 1 [] ≡ front ++ record leaf { ee_len = leaf.ee_len + 5 } ∷ [])
    × (leaf.ee_start_hi * 4294967296 + leaf.ee_start_lo + leaf.ee_len ≡ 103)
    × (leaf.ee_len + 5 ≤ max_extent_len)
    × (read_header longer_root ≡ read_header root)
coalesce_last-bounds_example = coalesce_last-bounds root 1 103 5 five_more

abbrev reader : FileReader
reader = record { size = 700; position = 3; leaves = two_leaves }

-- Block 10 of the device starts with a few bytes.
abbrev sectors : ℕ → List ℕ
sectors i = if i == 20 then 1 ∷ 2 ∷ 3 ∷ 4 ∷ 5 ∷ 6 ∷ replicate 506 0 else small_sectors i

abbrev moved : FileReader
moved = record { size = 700; position = 7; leaves = two_leaves }

four_bytes : read memory sectors small_sb 4 reader ≡ done (4 ∷ 5 ∷ 6 ∷ 0 ∷ []) moved
unfolding read read_blocks read_chunk resolve_lblock partition_point read_loop read_sectors
    read_memory is_sector all_bytes
four_bytes = refl

read-IsContent_example :
    (4 ≡ min 4 (700 - 3))
    × (moved ≡ record reader { position = 3 + 4 })
    × ((i : ℕ)
        → i < 4
        → IsContent memory sectors small_sb two_leaves (3 + i) (byte_at (4 ∷ 5 ∷ 6 ∷ 0 ∷ []) i))
read-IsContent_example = read-IsContent memory sectors small_sb 4 reader (omega arith) four_bytes

-- An index node without entries in block 11.
abbrev emptied : WriteState memory
emptied = record small {
  dev = λ i. if i == 22 then 0x0A ∷ 0xF3 ∷ replicate 510 0 else small_sectors i;
}

abbrev pruned : WriteState memory
pruned = final (free_subtree memory small_sb 1 11 emptied) emptied

free_node : free_subtree memory small_sb 1 11 emptied ≡ done tt pruned
unfolding read_loop read_sectors write_loop write_sectors get adjust adjust_free_blocks upsert
    pin_block write_through resize copy_at is_allocated patch_free_blocks load_bitmap flush_bitmap
    update_gdt_free_blocks read_memory write_memory is_sector all_bytes clear_bit free revoke_block
    free_block free_and_revoke free_children free_subtree read_block parse_header
free_node = refl

free_subtree-empty_example :
    (bytes : List ℕ) × (hdr : ExtentHeader) × (read_block memory small_sb 11 emptied ≡ ok bytes)
    × (parse_header bytes 11 ≡ ok hdr)
    × (hdr.eh_entries ≡ 0)
free_subtree-empty_example =
    free_subtree-empty memory small_sb memory-IsLawful small_sb-IsValid 0 11 emptied pruned
      free_node

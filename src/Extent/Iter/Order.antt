-- ===== src/Extent/Iter/Order.antt =====
-- The iterator of `ext4-core/src/extent.rs` yields every block in turn, as the scan finds it.
use pengwin.Base.{
  ℕ, zero, suc, ◌+◌, ◌^◌, ◌≤◌, ◌<◌, ◌≡◌, refl, sym, ◌∙◌, ap, inl, inr, false, ltb, leb, ltb→lt,
  ltb-false, lt→leb-false, Bool-cases, none, some, List, [], ◌∷◌, drop, u64, ok, arith,
}
use pengwin.Extent.{ExtentLeaf, leaf_block, covers}
use pengwin.Extent.Leaves.{find_phys}
use pengwin.Extent.Ordered.{leaf_len, IsWide, IsOrdered, find_phys-cons_miss, find_phys-StartsFrom}
use pengwin.Extent.Iter.{ExtentIter, covered, next_loop, next}

-- The first `n` leaves end at or before block `k`.
abbrev EndBy : ℕ → ℕ → List ExtentLeaf → Type 0
EndBy k zero leaves = Unit
EndBy k (suc n) [] = Unit
EndBy k (suc n) (l ∷ rest) = (l.ee_block + leaf_len l ≤ k) × EndBy k n rest

EndBy-le : (k j n : ℕ) (leaves : List ExtentLeaf) → k ≤ j → EndBy k n leaves → EndBy j n leaves
EndBy-le k j zero leaves le h = tt
EndBy-le k j (suc n) [] le h = tt
EndBy-le k j (suc n) (l ∷ rest) le h = (omega arith, EndBy-le k j n rest le h.1)

EndBy-more :
    (k n m : ℕ) (leaves : List ExtentLeaf)
    → EndBy k n leaves
    → EndBy k m (drop n leaves)
    → EndBy k (n + m) leaves
EndBy-more k zero m leaves h h' = let e : 0 + m ≡ m = omega arith in rw e h'
EndBy-more k (suc n) m [] h h' = let e : suc n + m ≡ suc (n + m) = omega arith in rw e tt
EndBy-more k (suc n) m (l ∷ rest) h h' =
    let e : suc n + m ≡ suc (n + m) = omega arith in rw e (h.0, EndBy-more k n m rest h.1 h')

drop-IsOrdered : (n : ℕ) (leaves : List ExtentLeaf) → IsOrdered leaves → IsOrdered (drop n leaves)
drop-IsOrdered zero leaves h = h
drop-IsOrdered (suc n) [] h = tt
drop-IsOrdered (suc n) (l ∷ rest) h = drop-IsOrdered n rest h.3

-- Leaves that ended do not matter to the scan.
find_phys-drop :
    (n lblock : ℕ) (leaves : List ExtentLeaf)
    → EndBy lblock n leaves
    → find_phys leaves lblock ≡ find_phys (drop n leaves) lblock
find_phys-drop zero lblock leaves h = refl
find_phys-drop (suc n) lblock [] h = refl
find_phys-drop (suc n) lblock (l ∷ rest) h =
    find_phys-cons_miss l rest lblock (ground arith) ∙ find_phys-drop n lblock rest h.1

covered-find_phys :
    (l : ExtentLeaf) (rest : List ExtentLeaf) (lblock : ℕ)
    → IsWide l
    → lblock < 2 ^ 63
    → l.ee_block ≤ lblock
    → lblock < l.ee_block + leaf_len l
    → find_phys rest lblock ≡ none
    → covered l lblock ≡ ok (find_phys (l ∷ rest) lblock)
unfolding find_phys leaf_block
covered-find_phys l rest lblock wide small lo hi later = ground arith

-- The loop's answer, and the leaves that it passed.
next_loop-find_phys :
    (rest : List ExtentLeaf) (idx lblock : ℕ)
    → IsOrdered rest
    → lblock < 2 ^ 63
    → (n : ℕ) × ((next_loop rest idx lblock).0 ≡ ok (find_phys rest lblock))
      × ((next_loop rest idx lblock).1 ≡ idx + n)
      × EndBy lblock n rest
unfolding next_loop
next_loop-find_phys [] idx lblock ordered small = (0, unfold find_phys in refl, omega arith, tt)
next_loop-find_phys (l ∷ rest) idx lblock ordered small =
    elim (Bool-cases (ltb lblock l.ee_block)) [
      | inl before ↦
          let lt = ltb→lt _ _ before in
          let miss : covers l lblock ≡ false = ground arith in
          let hole =
            find_phys-cons_miss l rest lblock miss
            ∙ find_phys-StartsFrom (l.ee_block + leaf_len l) lblock rest (omega arith) ordered.2 in
          rw before (0, ap ok (sym hole), omega arith, tt)
      | inr from ↦ elim (Bool-cases (ltb lblock (l.ee_block + leaf_len l))) [
        | inl inside ↦
            let hit =
              covered-find_phys l rest lblock ordered.0 small (ltb-false _ _ from)
                (ltb→lt _ _ inside)
                (find_phys-StartsFrom (l.ee_block + leaf_len l) lblock rest (ltb→lt _ _ inside)
                  ordered.2) in
            rw (from, inside) (0, hit, omega arith, tt)
        | inr past ↦
            let miss : covers l lblock ≡ false = ground arith in
            let (n, found, at, ended) = next_loop-find_phys rest (idx + 1) lblock ordered.3 small in
            rw (from, past)
              (
                suc n,
                found ∙ ap ok (sym (find_phys-cons_miss l rest lblock miss)),
                omega (arith, at),
                (ltb-false _ _ past, ended),
              )
      ]
    ]

-- The leaves are in order, and those before `leaf_idx` end at or before the next block.
pub record IsSynced (it : ExtentIter) : Type 0 where
  pub ordered : IsOrdered it.leaves
  pub ended : EndBy it.next_lblock it.leaf_idx it.leaves

-- From a synced iterator with blocks left and below block 2 ^ 63, `next` yields the next block
-- with what the scan of all leaves finds for it, and the iterator is synced at the block after.
pub next-IsSynced :
    (it : ExtentIter)
    → IsSynced it
    → it.is_done ≡ false
    → it.next_lblock < it.total_lblocks
    → it.next_lblock < 2 ^ 63
    → ((next it).0 ≡ some (ok (it.next_lblock, find_phys it.leaves it.next_lblock)))
      × ((next it).1.next_lblock ≡ it.next_lblock + 1)
      × ((next it).1.leaves ≡ it.leaves)
      × IsSynced (next it).1
unfolding next
next-IsSynced it synced running left small =
    let rest = drop it.leaf_idx it.leaves in
    let more : leb it.total_lblocks it.next_lblock ≡ false = lt→leb-false _ _ left in
    let (n, found, at, ended) =
      next_loop-find_phys rest it.leaf_idx it.next_lblock
        (drop-IsOrdered it.leaf_idx it.leaves synced.ordered) small in
    let same = find_phys-drop it.leaf_idx it.next_lblock it.leaves synced.ended in
    let step : u64 (it.next_lblock + 1) ≡ it.next_lblock + 1 = omega arith in
    let ended' =
      EndBy-le it.next_lblock (it.next_lblock + 1) (it.leaf_idx + n) it.leaves (omega arith)
        (EndBy-more it.next_lblock it.leaf_idx n it.leaves synced.ended ended) in
    rw (running, more, found, at, step, ← same)
      (refl, refl, refl, record { ordered = synced.ordered; ended = ended' })

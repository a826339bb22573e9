-- ===== src/Journal/Transaction/Pins.antt =====
-- A transaction is a finite map from blocks to their latest data.
use pengwin.Base.{
  ℕ, ◌==◌, ==_false, ◌≡◌, refl, ◌≢◌, none, some, List, [], ◌∷◌, if◌then◌else◌, Bool-cases, inl, inr,
  arith,
}
use pengwin.Journal.Transaction.{Transaction, upsert, pin_block, find_last, pinned}

abbrev pub Unpinned : ℕ → List (ℕ × List ℕ) → Type 0
Unpinned k [] = Unit
Unpinned k ((b, _) ∷ rest) = (b ≢ k) × Unpinned k rest

-- No block is pinned twice.
abbrev pub IsDeduplicated : List (ℕ × List ℕ) → Type 0
IsDeduplicated [] = Unit
IsDeduplicated ((b, _) ∷ rest) = Unpinned b rest × IsDeduplicated rest

find_last-Unpinned : (k : ℕ) (l : List (ℕ × List ℕ)) → Unpinned k l → find_last k l ≡ none
unfolding find_last
find_last-Unpinned k [] h = refl
find_last-Unpinned k ((b, v) ∷ l) h = ground (arith, find_last-Unpinned k l h.1)

upsert-Unpinned :
    (k j : ℕ) (v : List ℕ) (l : List (ℕ × List ℕ))
    → k ≢ j
    → Unpinned j l
    → Unpinned j (upsert k v l)
unfolding upsert
upsert-Unpinned k j v [] ne h = (ne, tt)
upsert-Unpinned k j v ((b, w) ∷ l) ne h = elim (Bool-cases (b == k)) [
  | inl same ↦ rw same h
  | inr other ↦ rw other (h.0, upsert-Unpinned k j v l ne h.1)
]

upsert-IsDeduplicated :
    (k : ℕ) (v : List ℕ) (l : List (ℕ × List ℕ)) → IsDeduplicated l → IsDeduplicated (upsert k v l)
unfolding upsert
upsert-IsDeduplicated k v [] h = (tt, tt)
upsert-IsDeduplicated k v ((b, w) ∷ l) h = elim (Bool-cases (b == k)) [
  | inl same ↦ rw same h
  | inr other ↦ rw other (
    upsert-Unpinned k b v l (λ e. ==_false b k other (cc e)) h.0,
    upsert-IsDeduplicated k v l h.1,
  )
]

find_last-upsert :
    (k j : ℕ) (v : List ℕ) (l : List (ℕ × List ℕ))
    → IsDeduplicated l
    → find_last j (upsert k v l) ≡ (if k == j then some v else find_last j l)
unfolding upsert find_last
find_last-upsert k j v [] h = refl
find_last-upsert k j v ((b, w) ∷ l) h = elim (Bool-cases (b == k)) [
  | inl same ↦ ground (arith, find_last-Unpinned b l h.0)
  | inr other ↦ rw other (ground (arith, find_last-upsert k j v l h.1))
]

-- Pinning a block in a transaction that pins no block twice leaves it so, and from then on the
-- block's pinned data is the new data, whatever was pinned before; the data of every other block
-- and the revoked blocks stay.
pub pinned-pin_block :
    (k : ℕ) (v : List ℕ) (txn : Transaction)
    → IsDeduplicated txn.blocks
    → IsDeduplicated (pin_block k v txn).blocks
      × ((j : ℕ) → pinned (pin_block k v txn) j ≡ (if k == j then some v else pinned txn j))
      × ((pin_block k v txn).revoked ≡ txn.revoked)
unfolding pin_block
pinned-pin_block k v txn h =
    (upsert-IsDeduplicated k v txn.blocks h, λ j. find_last-upsert k j v txn.blocks h, refl)

-- ===== src/Journal/Transaction.antt =====
-- `Transaction` of `ext4-core/src/journal/writer.rs`: the blocks pinned and revoked so far.
pub mod Pins
use pengwin.Base.{
  ℕ, ◌==◌, ◌&&◌, Bool, Option, none, some, List, [], ◌∷◌, ◌++◌, length, if◌then◌else◌,
}

pub record Transaction : Type 0 where
  pub sequence : ℕ
  pub blocks : List (ℕ × List ℕ)
  pub revoked : List ℕ

unfoldable pub new : ℕ → Transaction
new sequence = record { sequence = sequence; blocks = []; revoked = [] }

-- The first pin of the block is replaced; a new block goes to the end.
unfoldable pub upsert : ℕ → List ℕ → List (ℕ × List ℕ) → List (ℕ × List ℕ)
upsert fs_block bytes [] = (fs_block, bytes) ∷ []
upsert fs_block bytes ((b, old) ∷ rest) =
    if b == fs_block then (b, bytes) ∷ rest else (b, old) ∷ upsert fs_block bytes rest

unfoldable pub pin_block : ℕ → List ℕ → Transaction → Transaction
pin_block fs_block bytes txn = record txn { blocks = upsert fs_block bytes txn.blocks }

unfoldable pub revoke_block : ℕ → Transaction → Transaction
revoke_block fs_block txn = record txn { revoked = txn.revoked ++ fs_block ∷ [] }

unfoldable pub is_empty : Transaction → Bool
is_empty txn = length txn.blocks == 0 && length txn.revoked == 0

-- `blocks.iter().rev().find(|(b, _)| *b == fs_block)`: the last pin of the block.
unfoldable pub find_last : ℕ → List (ℕ × List ℕ) → Option (List ℕ)
find_last fs_block [] = none
find_last fs_block ((b, bytes) ∷ rest) = elim (find_last fs_block rest) [
  | some later ↦ some later
  | none ↦ if b == fs_block then some bytes else none
]

abbrev pub pinned : Transaction → ℕ → Option (List ℕ)
pinned txn fs_block = find_last fs_block txn.blocks

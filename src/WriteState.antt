-- ===== src/WriteState.antt =====
-- What the writing code of `ext4-core` mutates: the device, the group descriptor table in memory
-- (`gdt: &mut GroupDescTable`) and the open transaction (`txn: &mut Transaction`).
pub mod Blocks
use pengwin.Base.{
  ℕ, zero, suc, ◌≡◌, refl, sym, ap, arith, length-take, length-append, length-replicate, List, [],
  ◌∷◌, ◌++◌, ◌-◌, ◌+◌, ◌*◌, ◌/◌, length, take, replicate, splice, leb, if◌then◌else◌, Outcome, ok,
  panic, u64, M, done, zoom,
}
use pengwin.Base.Stateful.{◌>>=◌, ◌>>◌}
use pengwin.Device.{BlockDevice, BlockDeviceError, write_sectors}
use pengwin.GroupDesc.{GroupDescTable}
use pengwin.Superblock.{Superblock}
use pengwin.Journal.Transaction
use pengwin.Journal.Transaction.{Transaction}

pub record WriteState (D : BlockDevice) : Type 0 where
  pub dev : D.Dev
  pub gdt : GroupDescTable
  pub txn : Transaction

-- `block * sectors_per_block` on `u64`.
abbrev pub start_sector : Superblock → ℕ → ℕ
start_sector sb block = u64 (block * (sb.block_size / 512))

-- `Vec::resize(n, 0)`.
unfoldable pub resize : List ℕ → ℕ → List ℕ
resize bytes n = take n (bytes ++ replicate (n - length bytes) 0)

-- `data[off..off + src.len()].copy_from_slice(src)`, which panics out of range.
unfoldable pub copy_at {ℓ} : {E : Type ℓ} → List ℕ → ℕ → List ℕ → Outcome E (List ℕ)
copy_at bytes off src =
    if leb (off + length src) (length bytes) then ok (splice bytes off src) else panic

take-append_exact {ℓ} :
    {A : Type ℓ} (xs ys : List A) (n : ℕ) → n ≡ length xs → take n (xs ++ ys) ≡ xs
take-append_exact [] ys zero e = refl
take-append_exact [] ys (suc n) e = absurd (omega arith)
take-append_exact (x ∷ xs) ys zero e = absurd (omega arith)
take-append_exact (x ∷ xs) ys (suc n) e = ap (◌∷◌ x) (take-append_exact xs ys n (omega arith))

-- A buffer that has its size already is not changed.
pub resize_exact : (bytes : List ℕ) (n : ℕ) → length bytes ≡ n → resize bytes n ≡ bytes
unfolding resize
resize_exact bytes n e = take-append_exact bytes _ n (sym e)

pub length-resize : (bytes : List ℕ) (n : ℕ) → length (resize bytes n) ≡ n
unfolding resize
length-resize bytes n = omega (
  arith,
  length-take n (bytes ++ replicate (n - length bytes) 0),
  length-append bytes (replicate (n - length bytes) 0),
  length-replicate {A = ℕ} (n - length bytes) 0,
)

module _ (D : BlockDevice) {E : Type 0} where
  -- An operation of the device; its errors are wrapped.
  abbrev pub on_dev {ℓ} :
      {A : Type ℓ} → (BlockDeviceError → E) → M D.Dev BlockDeviceError A → M (WriteState D) E A
  on_dev = zoom (λ s. s.dev) (λ d s. record s { dev = d })

  abbrev pub on_txn : (Transaction → Transaction) → M (WriteState D) E (Unit {0})
  on_txn f s = done tt (record s { txn = f s.txn })

  abbrev pub set_gdt : GroupDescTable → M (WriteState D) E (Unit {0})
  set_gdt gdt s = done tt (record s { gdt = gdt })

  -- The write-through of `flush_bitmap`, `flush_inode_bitmap` and `flush_inode_table`: the padded
  -- block goes to the device at once and is pinned.
  unfoldable pub write_through :
      (BlockDeviceError → E) → Superblock → ℕ → List ℕ → M (WriteState D) E (Unit {0})
  write_through wrap sb block bytes = do
    let padded = resize bytes sb.block_size
    on_dev wrap (write_sectors D (start_sector sb block) padded)
    on_txn (Transaction.pin_block block padded)

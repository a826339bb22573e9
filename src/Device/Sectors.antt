-- ===== src/Device/Sectors.antt =====
-- The trait `BlockDevice` of `ext4-core/src/block_device/mod.rs`, with `read_sectors` and
-- `write_sectors`.
use pengwin.Base.{
  ℕ, zero, suc, ◌+◌, ◌*◌, ◌/◌, ◌%◌, ◌^◌, ◌≡◌, ◌≢◌, List, [], ◌++◌, length, take, drop, ltb, ◌==◌,
  if◌then◌else◌, IsBytes, Outcome, ok, ensure, done, abort, M, pure,
}
use pengwin.Base.Fallible
use pengwin.Base.Stateful.{◌>>◌}

-- `io` carries the code of a `std::io::Error`.
pub data BlockDeviceError : Type 0 where
  out_of_range : ℕ → ℕ → BlockDeviceError
  io : ℕ → BlockDeviceError
  invalid_geometry : ℕ → BlockDeviceError
  not_supported : BlockDeviceError

pub record BlockDevice : Type 1 where
  pub Dev : Type 0
  pub sector_count : Dev → ℕ
  pub read_sector : Dev → ℕ → Outcome BlockDeviceError (List ℕ)
  pub write_sector : ℕ → List ℕ → M Dev BlockDeviceError (Unit {0})
  pub flush : M Dev BlockDeviceError (Unit {0})

-- What the trait's documentation promises of an implementation.
pub record IsLawful (D : BlockDevice) : Type 0 where
  pub length-read : (d : D.Dev) (i : ℕ) {b : List ℕ} → D.read_sector d i ≡ ok b → length b ≡ 512
  pub read-IsBytes : (d : D.Dev) (i : ℕ) {b : List ℕ} → D.read_sector d i ≡ ok b → IsBytes b
  pub read-write_self :
      (d d' : D.Dev) (i : ℕ) (b : List ℕ)
      → length b ≡ 512
      → D.write_sector i b d ≡ done tt d'
      → D.read_sector d' i ≡ ok b
  pub read-write_ne :
      (d d' : D.Dev) (i j : ℕ) (b : List ℕ)
      → i ≢ j
      → D.write_sector i b d ≡ done tt d'
      → D.read_sector d' j ≡ D.read_sector d j
  pub read-flush :
      (d d' : D.Dev) (j : ℕ) → D.flush d ≡ done tt d' → D.read_sector d' j ≡ D.read_sector d j

module _ (D : BlockDevice) where
  -- The loop of `read_sectors` at sector `i`, with `n` sectors left. Sector numbers are not cut
  -- to 64 bits: a device that has sector 2 ^ 64 - 1 as its last refuses the next one.
  unfoldable pub read_loop : D.Dev → ℕ → ℕ → Outcome BlockDeviceError (List ℕ)
  read_loop d i zero = ok []
  read_loop d i (suc n) =
      Fallible.◌>>=◌ (D.read_sector d i)
        λ b. Fallible.◌>>=◌ (read_loop d (i + 1) n) λ rest. ok (b ++ rest)

  unfoldable pub read_sectors : D.Dev → ℕ → ℕ → Outcome BlockDeviceError (List ℕ)
  read_sectors d start count =
      Fallible.◌>>◌ (ensure (ltb (count * 512) (2 ^ 64)) (invalid_geometry count))
        (read_loop d start count)

  -- The loop of `write_sectors` at sector `i`, with `n` chunks left.
  unfoldable pub write_loop : ℕ → ℕ → List ℕ → M D.Dev BlockDeviceError (Unit {0})
  write_loop i zero bytes = pure tt
  write_loop i (suc n) bytes = do
    D.write_sector i (take 512 bytes)
    write_loop (i + 1) n (drop 512 bytes)

  -- The assertion that the buffer is sector-aligned panics.
  unfoldable pub write_sectors : ℕ → List ℕ → M D.Dev BlockDeviceError (Unit {0})
  write_sectors start bytes d =
      if length bytes % 512 == 0 then write_loop start (length bytes / 512) bytes d else abort

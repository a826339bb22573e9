-- ===== src/Tests/Memory.antt =====
-- A device in memory, which keeps the promises of the block device trait.
use pengwin.Base.{
  ℕ, zero, suc, ◌≡◌, ◌≢◌, sym, ◌∙◌, ==_self, ne→==_false, Bool, true, ◌&&◌, Bool-cases, inl, inr,
  ltb, ◌==◌, if◌then◌else◌, List, [], ◌∷◌, length, IsBytes, Outcome, ok, err, M, done, fail, pure,
  arith,
}
use pengwin.Device.{BlockDevice, BlockDeviceError, IsLawful, io, out_of_range}

unfoldable pub all_bytes : List ℕ → Bool
all_bytes [] = true
all_bytes (b ∷ bs) = ltb b 256 && all_bytes bs

pub all_bytes-IsBytes : (b : List ℕ) → all_bytes b ≡ true → IsBytes b
unfolding all_bytes
all_bytes-IsBytes [] h i = omega arith
all_bytes-IsBytes (b ∷ bs) h zero = ground arith
all_bytes-IsBytes (b ∷ bs) h (suc i) = all_bytes-IsBytes bs (ground arith) i

unfoldable pub is_sector : List ℕ → Bool
unfolding all_bytes
is_sector b = length b == 512 && all_bytes b

unfoldable pub read_memory : (ℕ → List ℕ) → ℕ → Outcome BlockDeviceError (List ℕ)
read_memory d i =
    if ltb i 64 then (if is_sector (d i) then ok (d i) else err (io 1)) else err (out_of_range i 64)

unfoldable pub write_memory : ℕ → List ℕ → M (ℕ → List ℕ) BlockDeviceError (Unit {0})
write_memory i b d =
    if ltb i 64
    then (if is_sector b then done tt (λ j. if j == i then b else d j) else fail (io 2) d)
    else fail (out_of_range i 64) d

abbrev pub memory : BlockDevice
memory = record {
  Dev = ℕ → List ℕ;
  sector_count = λ d. 64;
  read_sector = read_memory;
  write_sector = write_memory;
  flush = pure tt;
}

is_sector_facts : (b : List ℕ) → is_sector b ≡ true → (length b ≡ 512) × (all_bytes b ≡ true)
unfolding is_sector
is_sector_facts b h = ground arith

module _ (d : ℕ → List ℕ) (i : ℕ) where
  read_memory_facts :
      {b : List ℕ} → read_memory d i ≡ ok b → (ltb i 64 ≡ true) × (is_sector b ≡ true) × (d i ≡ b)
  unfolding read_memory
  read_memory_facts {b} h = ground arith

  write_memory_facts :
      (b : List ℕ) {d' : ℕ → List ℕ}
      → write_memory i b d ≡ done tt d'
      → (ltb i 64 ≡ true) × (is_sector b ≡ true) × ((λ (j : ℕ). if j == i then b else d j) ≡ d')
  unfolding write_memory
  write_memory_facts b {d'} h = elim (Bool-cases (ltb i 64)) [
    | inl inside ↦ elim (Bool-cases (is_sector b)) [
      | inl whole ↦ (inside, whole, let h' = rw (inside, whole) at h in cc)
      | inr broken ↦ absurd (let h' = rw (inside, broken) at h in cc)
    ]
    | inr outside ↦ absurd (let h' = rw outside at h in cc)
  ]

read-write_memory_self :
    (d d' : ℕ → List ℕ) (i : ℕ) (b : List ℕ)
    → write_memory i b d ≡ done tt d'
    → read_memory d' i ≡ ok b
unfolding read_memory
read-write_memory_self d d' i b h =
    let (inside, whole, e) = write_memory_facts d i b h in
    let at : d' i ≡ b = (λ k. sym e k i) ∙ rw (==_self i) in rw (inside, at, whole)

read-write_memory_ne :
    (d d' : ℕ → List ℕ) (i j : ℕ) (b : List ℕ)
    → i ≢ j
    → write_memory i b d ≡ done tt d'
    → read_memory d' j ≡ read_memory d j
unfolding read_memory
read-write_memory_ne d d' i j b ne h =
    let (inside, whole, e) = write_memory_facts d i b h in
    let at : d' j ≡ d j = (λ k. sym e k j) ∙ rw (ne→==_false j i (λ q. ne (sym q))) in rw at

pub memory-IsLawful : IsLawful memory
memory-IsLawful = record {
  length-read =
      λ d i h. let (inside, whole, e) = read_memory_facts d i h in (is_sector_facts _ whole).0;
  read-IsBytes = λ d i {b} h.
      let (inside, whole, e) = read_memory_facts d i h in
      all_bytes-IsBytes b (is_sector_facts b whole).1;
  read-write_self = λ d d' i b size h. read-write_memory_self d d' i b h;
  read-write_ne = λ d d' i j b ne h. read-write_memory_ne d d' i j b ne h;
  read-flush = λ d d' j h. let e : d ≡ d' = cc in rw e;
}

-- ===== src/Device/Transfer.antt =====
-- Multi-sector transfers on a lawful device: what `write_sectors` wrote, `read_sectors` returns,
-- and no other sector changes.
use pengwin.Base.{
  ℕ, zero, suc, ◌+◌, ◌*◌, ◌/◌, ◌%◌, ◌^◌, ◌≤◌, ◌<◌, ◌≡◌, refl, ◌∙◌, ap, ◌⊎◌, inl, inr, List, [], ◌∷◌,
  ◌++◌, length, take, drop, ltb, lt→ltb, ◌==◌, ==_iff, Bool-cases, length-take, length-drop,
  length-append, take-append-drop, IsBytes, IsBytes-append, ok, err, done, abort, arith,
  >>=-eq-done, >>=-eq-ok,
}
use mathlib.Core.Path.{subst}
use pengwin.Device.Sectors.{
  BlockDevice, IsLawful, invalid_geometry, read_sectors, write_sectors, read_loop, write_loop,
}

module _ (D : BlockDevice) (lawful : IsLawful D) where
  -- A sector outside the written range is read as before.
  write_loop-outside :
      (n i : ℕ) (bytes : List ℕ) (d d' : D.Dev) (j : ℕ)
      → length bytes ≡ n * 512
      → write_loop D i n bytes d ≡ done tt d'
      → (j < i) ⊎ (i + n ≤ j)
      → D.read_sector d' j ≡ D.read_sector d j
  unfolding write_loop
  write_loop-outside zero i bytes d d' j l h out = ground arith
  write_loop-outside (suc n) i bytes d d' j l h out =
      let (u, d₁, first, rest) = >>=-eq-done (D.write_sector i (take 512 bytes)) _ d h in
      write_loop-outside n (i + 1) (drop 512 bytes) d₁ d' j (omega (arith, length-drop 512 bytes))
        rest (omega arith)
      ∙ lawful.read-write_ne d d₁ i j (take 512 bytes) (omega arith) first

  read_loop-write_loop :
      (n i : ℕ) (bytes : List ℕ) (d d' : D.Dev)
      → length bytes ≡ n * 512
      → write_loop D i n bytes d ≡ done tt d'
      → read_loop D d' i n ≡ ok bytes
  unfolding write_loop read_loop
  read_loop-write_loop zero i [] d d' l h = refl
  read_loop-write_loop zero i (b ∷ bytes) d d' l h = absurd (omega arith)
  read_loop-write_loop (suc n) i bytes d d' l h =
      let (u, d₁, first, rest) = >>=-eq-done (D.write_sector i (take 512 bytes)) _ d h in
      let l' : length (drop 512 bytes) ≡ n * 512 = omega (arith, length-drop 512 bytes) in
      rw
        (
          write_loop-outside n (i + 1) (drop 512 bytes) d₁ d' i l' rest (inl (omega arith)),
          lawful.read-write_self d d₁ i (take 512 bytes) (omega (arith, length-take 512 bytes))
              first,
          read_loop-write_loop n (i + 1) (drop 512 bytes) d₁ d' l' rest,
        )
        (ap ok (take-append-drop 512 bytes))

  read_loop-outside :
      (n i m j : ℕ) (bytes : List ℕ) (d d' : D.Dev)
      → length bytes ≡ n * 512
      → write_loop D i n bytes d ≡ done tt d'
      → (j + m ≤ i) ⊎ (i + n ≤ j)
      → read_loop D d' j m ≡ read_loop D d j m
  unfolding read_loop
  read_loop-outside n i zero j bytes d d' l h out = refl
  read_loop-outside n i (suc m) j bytes d d' l h out = rw (
    write_loop-outside n i bytes d d' j l h (omega arith),
    read_loop-outside n i m (j + 1) bytes d d' l h (omega arith),
  )

  length-read_loop :
      (n i : ℕ) (d : D.Dev) {bytes : List ℕ} → read_loop D d i n ≡ ok bytes → length bytes ≡ n * 512
  unfolding read_loop
  length-read_loop zero i d h = ground arith
  length-read_loop (suc n) i d {bytes} h =
      let (b, first, more) = >>=-eq-ok (D.read_sector d i) _ h in
      let (rest, later, joined) = >>=-eq-ok (read_loop D d (i + 1) n) _ more in
      ground (
        arith,
        joined,
        lawful.length-read d i first,
        length-read_loop n (i + 1) d later,
        length-append b rest,
      )

  write_sectors-loop :
      (start : ℕ) (bytes : List ℕ) (d d' : D.Dev)
      → write_sectors D start bytes d ≡ done tt d'
      → (length bytes ≡ length bytes / 512 * 512)
        × (write_loop D start (length bytes / 512) bytes d ≡ done tt d')
  unfolding write_sectors
  write_sectors-loop start bytes d d' h = elim (Bool-cases (length bytes % 512 == 0)) [
    | inl aligned ↦
        (let e : length bytes % 512 ≡ 0 = (==_iff _ _).0 aligned in omega arith, rw aligned at h)
    | inr odd ↦ let h' : abort ≡ done tt d' = rw odd at h in cc
  ]

  -- After a successful `write_sectors` of fewer than 2 ^ 64 bytes at `start`, `read_sectors` of
  -- as many sectors at `start` succeeds and returns the bytes written.
  pub read_sectors-write_sectors :
      (start : ℕ) (bytes : List ℕ) (d d' : D.Dev)
      → length bytes < 2 ^ 64
      → write_sectors D start bytes d ≡ done tt d'
      → read_sectors D d' start (length bytes / 512) ≡ ok bytes
  unfolding read_sectors
  read_sectors-write_sectors start bytes d d' small h =
      let (aligned, looped) = write_sectors-loop start bytes d d' h in
      rw (lt→ltb (length bytes / 512 * 512) (2 ^ 64) (omega arith))
        (read_loop-write_loop (length bytes / 512) start bytes d d' aligned looped)

  -- A successful `write_sectors` changes no sector outside its range: a read of `count` sectors
  -- at `other` that does not meet the range gives the same result, errors included.
  pub read_sectors-outside :
      (start : ℕ) (bytes : List ℕ) (other count : ℕ) (d d' : D.Dev)
      → write_sectors D start bytes d ≡ done tt d'
      → (other + count ≤ start) ⊎ (start + length bytes / 512 ≤ other)
      → read_sectors D d' other count ≡ read_sectors D d other count
  unfolding read_sectors
  read_sectors-outside start bytes other count d d' h out =
      let (aligned, looped) = write_sectors-loop start bytes d d' h in
      rw (read_loop-outside (length bytes / 512) start count other bytes d d' aligned looped out)

  pub length-read_sectors :
      (d : D.Dev) (start count : ℕ) {bytes : List ℕ}
      → read_sectors D d start count ≡ ok bytes
      → length bytes ≡ count * 512
  unfolding read_sectors
  length-read_sectors d start count h = elim (Bool-cases (ltb (count * 512) (2 ^ 64))) [
    | inl fits ↦ length-read_loop count start d (rw fits at h)
    | inr big ↦ absurd (let h' : err (invalid_geometry count) ≡ ok _ = rw big at h in cc)
  ]

  read_loop-IsBytes :
      (n i : ℕ) (d : D.Dev) {bytes : List ℕ} → read_loop D d i n ≡ ok bytes → IsBytes bytes
  unfolding read_loop
  read_loop-IsBytes zero i d {bytes} h =
      let e : [] ≡ bytes = cc in subst IsBytes e (λ j. omega arith)
  read_loop-IsBytes (suc n) i d {bytes} h =
      let (b, first, more) = >>=-eq-ok (D.read_sector d i) _ h in
      let (rest, later, joined) = >>=-eq-ok (read_loop D d (i + 1) n) _ more in
      let e : b ++ rest ≡ bytes = cc in
      subst IsBytes e (
        IsBytes-append b rest (lawful.read-IsBytes d i first) (read_loop-IsBytes n (i + 1) d later))

  pub read_sectors-IsBytes :
      (d : D.Dev) (start count : ℕ) {bytes : List ℕ}
      → read_sectors D d start count ≡ ok bytes
      → IsBytes bytes
  unfolding read_sectors
  read_sectors-IsBytes d start count h = elim (Bool-cases (ltb (count * 512) (2 ^ 64))) [
    | inl fits ↦ read_loop-IsBytes count start d (rw fits at h)
    | inr big ↦ absurd (let h' : err (invalid_geometry count) ≡ ok _ = rw big at h in cc)
  ]

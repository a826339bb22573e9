-- ===== src/Alloc/Bitmap/Runs.antt =====
-- `first_free_run` finds the first run of free bits of the given length, or there is none.
use pengwin.Base.{
  ℕ, zero, suc, ◌+◌, ◌-◌, ◌*◌, ◌/◌, ◌^◌, ◌≤◌, ◌<◌, ◌≡◌, ◌≢◌, inl, inr, true, false, leb, ◌==◌,
  ==_iff, ==_false, lt→ltb, if◌then◌else◌, Bool-cases, leb→le, leb-false, Option, none, some, List,
  sym, ◌∙◌, length, min, Outcome, ok, arith,
}
use mathlib.Core.Bool.{false≢true}
use pengwin.Alloc.Bitmap.{bit_is_set, is_allocated, run_loop, run_limit, first_free_run}

abbrev pub IsFreeRun : List ℕ → ℕ → ℕ → Type 0
IsFreeRun bitmap start count = (i : ℕ) → start ≤ i → i < start + count → bit_is_set bitmap i ≡ false

-- No run of `count` free bits ends at or before `limit`.
abbrev pub HasNoRun : List ℕ → ℕ → ℕ → Type 0
HasNoRun bitmap count limit = (s : ℕ) → s + count ≤ limit → ¬ IsFreeRun bitmap s count

-- What the search must return for bits below `limit`: the first free run, if there is one.
abbrev pub IsFirstRun {ℓ} : {E : Type ℓ} → List ℕ → ℕ → ℕ → Outcome E (Option ℕ) → Type 0
IsFirstRun bitmap count limit (ok (some s)) =
    (s + count ≤ limit)
    × IsFreeRun bitmap s count
    × ((s' : ℕ) → s' < s → ¬ IsFreeRun bitmap s' count)
IsFirstRun bitmap count limit (ok none) = HasNoRun bitmap count limit
IsFirstRun bitmap count limit _ = ⊥

-- The state of the search at `bit`: the `len` bits before it are free and start at `start`, the
-- bit before those is taken, and no run of `count` bits lies below `bit`.
record Scanned (bitmap : List ℕ) (count bit start len : ℕ) : Type 0 where
  short : len < count
  back : len ≤ bit
  started : 0 < len → start + len ≡ bit
  free : (i : ℕ) → bit ≤ i + len → i < bit → bit_is_set bitmap i ≡ false
  blocked : len < bit → bit_is_set bitmap (bit - len - 1) ≡ true
  none_below : HasNoRun bitmap count bit

abbrev run_start : ℕ → ℕ → ℕ → ℕ
run_start bit start len = if len == 0 then bit else start

module _ (bitmap : List ℕ) (count : ℕ) where
  -- A run that would end right after a taken bit is not free.
  HasNoRun-taken :
      (bit : ℕ)
      → 0 < count
      → bit_is_set bitmap bit ≡ true
      → HasNoRun bitmap count bit
      → HasNoRun bitmap count (bit + 1)
  HasNoRun-taken bit pos taken below s h run = elim (Bool-cases (leb (s + count) bit)) [
    | inl before ↦ below s (leb→le _ _ before) run
    | inr at ↦
        let last = leb-false _ _ at in
        let f = run bit (omega arith) (omega arith) in false≢true (sym f ∙ taken)
  ]

  -- Nor is one that would start before the free bits seen, since a taken bit stands there.
  HasNoRun-free :
      {bit start len : ℕ}
      → Scanned bitmap count bit start len
      → len + 1 < count
      → HasNoRun bitmap count (bit + 1)
  HasNoRun-free {bit} {start} {len} z more s h run = elim (Bool-cases (leb (s + count) bit)) [
    | inl before ↦ z.none_below s (leb→le _ _ before) run
    | inr at ↦
        let last = leb-false _ _ at in
        let f = run (bit - len - 1) (omega arith) (omega arith) in
        let taken = z.blocked (omega arith) in false≢true (sym f ∙ taken)
  ]

  Scanned-taken :
      {bit start len : ℕ}
      → Scanned bitmap count bit start len
      → bit_is_set bitmap bit ≡ true
      → Scanned bitmap count (bit + 1) start 0
  Scanned-taken {bit} {start} {len} z taken = record {
    short = omega (arith, z.short);
    back = omega arith;
    started = λ h. absurd (omega arith);
    free = λ i lo hi. absurd (omega arith);
    blocked = λ h. let e : bit + 1 - 0 - 1 ≡ bit = omega arith in rw e taken;
    none_below = HasNoRun-taken bit (omega (arith, z.short)) taken z.none_below;
  }

  Scanned-free :
      {bit start len : ℕ}
      → Scanned bitmap count bit start len
      → bit_is_set bitmap bit ≡ false
      → len + 1 < count
      → Scanned bitmap count (bit + 1) (run_start bit start len) (len + 1)
  Scanned-free {bit} {start} {len} z is_free more = record {
    short = more;
    back = omega (arith, z.back);
    started = λ h. ground (arith, z.started, z.back);
    free = λ i lo hi. elim (Bool-cases (i == bit)) [
      | inl same ↦ let e : i ≡ bit = (==_iff _ _).0 same in rw e is_free
      | inr other ↦ let ne : i ≢ bit = ==_false _ _ other in z.free i (omega arith) (omega arith)
    ];
    blocked = λ h.
        let e : bit + 1 - (len + 1) - 1 ≡ bit - len - 1 = omega arith in
        rw e (z.blocked (omega arith));
    none_below = HasNoRun-free z more;
  }

  Scanned-found :
      (E : Type 0) {bit start len limit : ℕ}
      → Scanned bitmap count bit start len
      → bit_is_set bitmap bit ≡ false
      → count ≤ len + 1
      → bit < limit
      → IsFirstRun {E = E} bitmap count limit (ok (some (run_start bit start len)))
  Scanned-found E {bit} {start} {len} {limit} z is_free enough inside =
      let e : run_start bit start len + count ≡ bit + 1 = ground (arith, z.started, z.short) in
      let short = z.short in
      (
        omega arith,
        λ i lo hi. elim (Bool-cases (i == bit)) [
          | inl same ↦ let e' : i ≡ bit = (==_iff _ _).0 same in rw e' is_free
          | inr other ↦
              let ne : i ≢ bit = ==_false _ _ other in z.free i (omega arith) (omega arith)
        ],
        λ s' before. z.none_below s' (omega arith),
      )

  run_loop-IsFirstRun :
      (E : Type 0) (n : ℕ) {bit start len : ℕ} (limit : ℕ)
      → Scanned bitmap count bit start len
      → bit + n ≡ limit
      → limit ≤ length bitmap * 8
      → IsFirstRun {E = E} bitmap count limit (run_loop bitmap count bit n start len)
  unfolding run_loop is_allocated
  run_loop-IsFirstRun E zero {bit} limit z e inside =
      let e' : bit ≡ limit = omega arith in rw e' at z.none_below
  run_loop-IsFirstRun E (suc n) {bit} {start} {len} limit z e inside =
      let in_bytes : bit / 8 < length bitmap = omega arith in
      rw (lt→ltb _ _ in_bytes) (elim (Bool-cases (bit_is_set bitmap bit)) [
        | inl taken ↦
            rw taken (run_loop-IsFirstRun E n limit (Scanned-taken z taken) (omega arith) inside)
        | inr is_free ↦ rw is_free (elim (Bool-cases (leb count (len + 1))) [
          | inl enough ↦ rw enough (Scanned-found E z is_free (leb→le _ _ enough) (omega arith))
          | inr more ↦ rw more (
              run_loop-IsFirstRun E n limit (Scanned-free z is_free (leb-false _ _ more))
                (omega arith) inside)
        ])
      ])

-- On a bitmap of fewer than 2 ^ 29 bytes and for a positive count, `first_free_run` never panics.
-- It returns the lowest bit from which `count` bits are free and below both the group's size and
-- the end of the bytes, or nothing exactly when no such run exists.
pub first_free_run-IsFirstRun :
    (E : Type 0) (bitmap : List ℕ) (count bits_in_group : ℕ)
    → 0 < count
    → length bitmap < 2 ^ 29
    → IsFirstRun {E = E} bitmap count
        (min bits_in_group (length bitmap * 8))
        (first_free_run bitmap count bits_in_group)
unfolding first_free_run
first_free_run-IsFirstRun E bitmap count bits_in_group pos small =
    let e : (count == 0) ≡ false = ground arith in
    let limit : run_limit bitmap bits_in_group ≡ min bits_in_group (length bitmap * 8) =
      omega arith in
    rw (e, limit)
      (run_loop-IsFirstRun bitmap count E (min bits_in_group (length bitmap * 8)) {bit = 0}
        {start = 0} {len = 0} (min bits_in_group (length bitmap * 8))
        (record {
          short = pos;
          back = omega arith;
          started = λ h. absurd (omega arith);
          free = λ i lo hi. absurd (omega arith);
          blocked = λ h. absurd (omega arith);
          none_below = λ s h run. absurd (omega arith);
        })
        (omega arith) (omega arith))

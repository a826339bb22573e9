-- ===== src/Base/Bits.antt =====
-- Laws of a small range, by a table that is evaluated.
use Prim.Native.Nat.{ℕ, zero, suc, ◌<◌}
use mathlib.Core.Path.{◌≡◌}
use mathlib.Core.Bool.{Bool, true, false}
use native.Mathlib.Omega.{arith}
use pengwin.Base.Tests.{if◌then◌else◌}

-- The table of a test has no entry below `n` that fails.
unfoldable pub all_below : ℕ → (ℕ → Bool) → Bool
all_below zero test = true
all_below (suc n) test = let rest = all_below n test in if test n then rest else false

pub all_below_sound :
    (n : ℕ) (test : ℕ → Bool) (k : ℕ) → all_below n test ≡ true → k < n → test k ≡ true
unfolding all_below
all_below_sound (suc n) test k table below = ground (arith, all_below_sound n test k)
all_below_sound zero test k table below = absurd (omega arith)

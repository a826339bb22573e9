-- ===== src/Base.antt =====
-- The names that the other modules share: the libraries', passed on, and those of the children.
mod Tests
mod Lists
pub mod Fallible
mod Word
mod Bytes
pub mod Bits
pub mod Stateful
pub use Tests.*
pub use Lists.*
pub use Fallible.{
  Outcome, ok, err, panic, map_err, ok_or, ensure, assert, map_err-eq-ok, >>=-eq-ok, Outcome-cases,
  ensure-eq-ok, ok-injective, >>=-ne_panic, ensure-ne_panic,
}
pub use Bytes.*
pub use Stateful.{
  Run, done, fail, abort, M, pure, throw, reads, zoom, map_fail, >>=-eq-done, Run-cases,
  reads-eq-done, >>=-done, >>=-fail, reads_ok, reads_err, map_fail-eq-done,
}
pub use Word.*
pub use Prim.Native.Nat.{
  ℕ, zero, suc, ◌+◌, ◌-◌, ◌*◌, ◌/◌, ◌%◌, ◌^◌, ◌≤◌, ◌<◌, min, max, bit_and, bit_or, bit_xor,
}
pub use mathlib.Core.Path.{◌≡◌, refl, sym, ap, ◌∙◌}
pub use mathlib.Core.Logic.{◌≢◌, ◌↔◌, ◌⊎◌, inl, inr}
pub use mathlib.Core.Bool.{Bool, true, false, not, ◌&&◌, ◌||◌}
pub use mathlib.Core.Option.{Option, none, some}
pub use mathlib.Core.List.{List, [], ◌∷◌, ◌++◌, map}
pub use native.Mathlib.Omega.{arith}

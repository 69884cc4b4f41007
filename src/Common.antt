-- ===== src/Common.antt =====
-- Names, Boolean tests, signed numbers, results and dictionaries that every part of the model
-- shares. Python's `str` is the native `String`, its `int` is `ℕ` where the source cannot reach a
-- negative value and `ℤ` where it can, and a `dict` is a list of pairs in insertion order.
mod Tests
mod Numbers
mod Results
mod Sequences
mod Texts
pub mod Dict
pub mod Decimal
pub use Tests.*
pub use Numbers.*
pub use Results.*
pub use Sequences.*
pub use Texts.*
pub use Prim.Native.Nat.{ℕ, zero, suc, ◌+◌, ◌-◌, ◌*◌, ◌/◌, ◌≤◌, ◌<◌}
pub use Prim.Native.String.{String, ◌++◌ as ◌<>◌}
pub use mathlib.Core.Path.{◌≡◌, refl, sym, ap, ◌∙◌}
pub use mathlib.Core.Logic.{◌≢◌, ◌↔◌, ◌⊎◌, inl, inr}
pub use mathlib.Core.Bool.{Bool, true, false, not, ◌&&◌, ◌||◌}
pub use mathlib.Core.Option.{Option, none, some}
pub use mathlib.Core.List.{List, [], ◌∷◌, ◌++◌}
pub use native.Mathlib.Omega.{arith}
pub use text.Mathlib.Text.{◌==◌ as ◌=t=◌, starts_with}
pub use text.Mathlib.TextEquality.{eq_iff}

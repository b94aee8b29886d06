-- ===== src/Prelude.antt =====
-- What the modules of this library share: the libraries' names passed on, Boolean tests, lists over
-- the native numbers, families indexed by numbers, and the loop combinator with its rule.
mod Tests
mod Lists
mod Families
mod Loop
pub use Tests.*
pub use Lists.*
pub use Families.*
unfoldable pub use Loop.{loop}
pub use Loop.{Turn, stop, again, Outcome, loop_lem, Kept, loop_keep}
pub use Prim.Native.Nat.{ℕ, zero, suc, ◌+◌, ◌-◌, ◌*◌, ◌/◌, ◌%◌, ◌^◌, ◌≤◌, ◌<◌, min, max}
pub use mathlib.Core.Path.{◌≡◌, refl, sym, ap, subst, ◌∙◌, fun_ext}
pub use mathlib.Core.Logic.{◌≢◌, ◌↔◌, ◌⊎◌, inl, inr}
pub use mathlib.Core.Bool.{Bool, true, false, not, ◌&&◌, ◌||◌}
pub use mathlib.Core.Option.{Option, none, some}
pub use mathlib.Core.List.{
  List, [], ◌∷◌, ◌++◌, map, reverse, append-nil, append_assoc, reverse-append,
}
pub use native.Mathlib.Omega.{arith}
unfoldable pub use native.Mathlib.Decide.{dec_lt, ℕ_discrete}

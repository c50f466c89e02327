-- ===== src/Base.antt =====
-- The names that every module shares: the library's, passed on, and those of the children below
-- (tests on numbers, machine words, storage maps, texts, calls that fail).
mod Tests
mod Lists
mod Words
mod Maps
mod MapLoops
mod Calls
mod Texts
pub use Tests.*
pub use Lists.*
unfoldable pub use Words.*
pub use Maps.*
pub use MapLoops.*
pub use Calls.*
pub use Texts.*
pub use Prim.Native.Nat.{
  ℕ, zero, suc, ◌+◌, ◌-◌, ◌*◌, ◌/◌, ◌%◌, ◌^◌, ◌≤◌, ◌<◌, min, compare, Ordering,
}
pub use mathlib.Core.Path.{◌≡◌, refl, sym, ap, ◌∙◌}
pub use mathlib.Core.Logic.{◌≢◌, ◌↔◌, ◌⊎◌, inl, inr}
pub use mathlib.Core.Bool.{Bool, true, false, not, ◌&&◌, ◌||◌}
pub use mathlib.Core.Option.{Option, none, some}
pub use mathlib.Core.List.{List, [], ◌∷◌, ◌++◌, map}
pub use native.Mathlib.Omega.{arith}

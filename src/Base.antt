-- ===== src/Base.antt =====
-- The names that the other modules share: those of the libraries, passed on, and those of the
-- children below. It models no file of the program.
mod Tests
mod Lists
mod Buffers
mod Texts
mod Dict
mod Entries
mod Counts
mod Strings
mod Trims
pub use Tests.*
pub use Lists.*
pub use Buffers.*
pub use Texts.*
pub use Strings.*
pub use Trims.*
unfoldable pub use Texts.{show}
unfoldable pub use Dict.{lookup, insert, spread}
pub use Dict.{lookup-insert, lookup-spread-none, includes}
pub use Entries.*
pub use Counts.*
pub use Prim.Native.Nat.{ℕ, zero, suc, ◌+◌, ◌-◌, ◌*◌, ◌/◌, ◌%◌, ◌^◌, ◌≤◌, ◌<◌, min, max}
pub use mathlib.Core.Path.{◌≡◌, refl, sym, ap, ap₂, subst, ◌∙◌}
pub use mathlib.Core.Logic.{◌≢◌, ◌↔◌, ◌⊎◌, inl, inr}
pub use mathlib.Core.Bool.{Bool, true, false, not, ◌&&◌, ◌||◌}
pub use mathlib.Core.Option.{Option, none, some}
pub use mathlib.Core.List.{List, [], ◌∷◌, ◌++◌, map, append_assoc, append-nil}
pub use native.Mathlib.Omega.{arith}

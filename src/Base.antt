-- ===== src/Base.antt =====
-- The names that the modules of the library share: the libraries', passed on, and those of the
-- children (tests, lists, sets, signed integers, byte strings, maps).
mod Tests
mod Lists
mod Ids
pub mod Int
pub mod Bytes
pub mod Map
pub use Tests.*
pub use Lists.*
unfoldable pub use Ids.{member, erase_id}
pub use Ids.{member-erase_id}
pub use Prim.Native.Nat.{ℕ, zero, suc, ◌+◌, ◌-◌, ◌*◌, ◌/◌, ◌%◌, ◌^◌, ◌≤◌, ◌<◌}
pub use Prim.Native.String.{String}
pub use mathlib.Core.Path.{◌≡◌, refl, sym, ap, ◌∙◌, fun_ext, subst}
pub use mathlib.Core.Logic.{◌≢◌, ◌↔◌, ◌⊎◌, inl, inr}
pub use mathlib.Core.Bool.{Bool, true, false, not, ◌&&◌, ◌||◌}
pub use mathlib.Core.Option.{Option, none, some}
pub use mathlib.Core.List.{List, [], ◌∷◌, ◌++◌, map, append_assoc, append-nil}
pub use native.Mathlib.Omega.{arith}

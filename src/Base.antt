-- ===== src/Base.antt =====
-- Names that every module shares: those of the libraries, passed on, and the helpers below.
mod Tests
mod Lists
mod Slices
mod Runs
mod Bytes
mod Text
pub use Tests.*
pub use Lists.*
pub use Slices.*
pub use Runs.*
unfoldable pub use Bytes.{le_bytes, of_le, be_bytes, of_be}
pub use Bytes.*
pub use Text.*
pub use Prim.Native.Nat.{ℕ, zero, suc, ◌+◌, ◌-◌, ◌*◌, ◌/◌, ◌%◌, ◌^◌, ◌≤◌, ◌<◌, min}
pub use mathlib.Core.Path.{◌≡◌, refl, sym, ap, ap₂, subst, ◌∙◌}
pub use mathlib.Core.Logic.{◌≢◌, ◌↔◌, ◌⊎◌, inl, inr}
pub use mathlib.Core.Bool.{Bool, true, false, ◌&&◌, ◌||◌, not}
pub use mathlib.Core.Option.{Option, none, some}
pub use mathlib.Core.List.{List, [], ◌∷◌, ◌++◌, map, append-nil, append_assoc}
pub use native.Mathlib.Omega.{arith}

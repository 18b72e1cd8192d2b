-- ===== src/Base.antt =====
-- The names that every component shares: library names passed on, the children's operations and
-- laws, and Go's machine words.
mod Tests
mod Lists
mod Words
mod Results
mod BigEndian
mod Checksum
pub mod Decimal
mod Sort
pub mod GoMap
pub mod Panics
pub mod Returns
pub use Tests.*
pub use Lists.*
pub use Words.*
pub use Results.*
unfoldable pub use BigEndian.*
unfoldable pub use Checksum.*
unfoldable pub use Decimal.*
unfoldable pub use Sort.*
pub use Prim.Native.Nat.{ℕ, zero, suc, ◌+◌, ◌-◌, ◌*◌, ◌/◌, ◌%◌, ◌^◌, ◌≤◌, ◌<◌, min, max}
pub use mathlib.Core.Path.{◌≡◌, refl, sym, ap, ◌∙◌, ◌≡⟨◌⟩◌, ◌∎, subst}
pub use mathlib.Core.Logic.{◌≢◌, ◌↔◌, ◌⊎◌, inl, inr}
pub use mathlib.Core.Bool.{Bool, true, false, not, ◌&&◌, ◌||◌}
pub use mathlib.Core.Option.{Option, none, some}
pub use mathlib.Core.List.{List, [], ◌∷◌, ◌++◌, map, reverse, append-nil, append_assoc}
pub use native.Mathlib.Omega.{arith}
unfoldable pub use native.Mathlib.Decide.{dec_lt, dec_le, ℕ_discrete}

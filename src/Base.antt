-- ===== src/Base.antt =====
-- The names that the other modules share: the libraries', passed on, and those of the children.
mod Tests
mod Equality
mod Lists
mod Outcome
mod Sort
mod Pairs
mod Any
mod Chunks
mod Int
pub use Tests.*
unfoldable pub use Tests.{all_below}
pub use Equality.*
pub use Lists.*
pub use Outcome.*
pub use Sort.*
pub use Pairs.*
pub use Any.*
pub use Chunks.*
pub use Int.*
unfoldable pub use Chunks.{chunks}
unfoldable pub use Sort.{insert_by, sort_by, max_by_key}
pub use Prim.Native.Nat.{ℕ, zero, suc, ◌+◌, ◌-◌, ◌*◌, ◌/◌, ◌%◌, ◌^◌, ◌≤◌, ◌<◌, min, max}
pub use Prim.Native.String.{String}
pub use mathlib.Core.Path.{◌≡◌, refl, sym, ap, subst, ◌∙◌}
pub use mathlib.Core.Logic.{◌≢◌, ◌↔◌, ◌⊎◌, inl, inr}
pub use mathlib.Core.Bool.{false≢true, Bool, true, false, not, ◌&&◌, ◌||◌}
pub use mathlib.Core.Option.{Option, none, some}
pub use mathlib.Core.List.{List, [], ◌∷◌, ◌++◌, map}
pub use native.Mathlib.Omega.{arith}

-- ===== src/Base.antt =====
-- The names that the other modules share: the libraries', passed on, and those of the children.
mod Tests
pub mod Text
mod Throwing
mod Int
pub mod Decimal
pub mod Search
pub mod Regex
mod Map
pub use Tests.*
pub use Throwing.*
pub use Prim.Native.Nat.{ℕ, zero, suc, ◌+◌, ◌-◌, ◌*◌, ◌/◌, ◌%◌, ◌^◌, ◌≤◌, ◌<◌}
pub use mathlib.Core.Path.{◌≡◌, refl, sym, ap, ◌∙◌}
pub use mathlib.Core.Logic.{◌≢◌, ◌↔◌, ◌⊎◌, inl, inr}
pub use mathlib.Core.Bool.{Bool, true, false, not, ◌&&◌, ◌||◌, false≢true}
pub use mathlib.Core.Option.{Option, none, some}
pub use mathlib.Core.List.{List, [], ◌∷◌, ◌++◌, append-nil, append_assoc, map}
pub use native.Mathlib.Omega.{arith}
pub use Int.{ℤ, pos, negsuc, negate, is_int}
unfoldable pub use Int.{to_u16}
pub use Search.{take-drop, length-take, length-drop}
pub use Text.{
  Bytes, codes, length, length-append, take, drop, is_empty, str_eq_iff, str_eq_refl, contains,
  after_pos, substr,
}
unfoldable pub use Text.{str_eq, starts_with, find, find_from}
pub use Map.{Dict, has_key, dict_laws, lookup-insert, lookup-erase}
unfoldable pub use Map.{lookup, insert, erase}
unfoldable pub use Decimal.{to_string, stoi}

-- ===== src/Base.antt =====
-- The names that every module shares: the libraries', passed on, and those of the children, with
-- texts (Base/Strings) and string-keyed maps and sets (Base/Map) as the Go code uses them.
mod Tests
mod Lists
mod Strings
mod Int
pub mod Map
pub use Tests.*
pub use Lists.*
pub use Int.*
pub use Strings.{
  Text, codes, text_eq_iff, text_eq_refl, text-eq_cases, is_empty, length-byte_length,
}
unfoldable pub use Strings.{
  text_eq, decimal, join, byte_length, text_lt, sort_texts, has_prefix, cut_prefix,
}
pub use Prim.Native.Nat.{ℕ, zero, suc, ◌+◌, ◌-◌, ◌*◌, ◌/◌, ◌%◌, ◌≤◌, ◌<◌, min, max}
pub use mathlib.Core.Path.{◌≡◌, refl, sym, ap, ◌∙◌, subst}
pub use mathlib.Core.Logic.{◌≢◌, ◌↔◌, ◌⊎◌, inl, inr}
pub use mathlib.Core.Bool.{Bool, true, false, ◌&&◌, ◌||◌, not, false≢true}
pub use mathlib.Core.Option.{Option, none, some}
pub use mathlib.Core.List.{List, [], ◌∷◌, ◌++◌, map, Memᴰ, append_assoc, append-nil}
pub use native.Mathlib.Omega.{arith}

-- ===== src/Prelude.antt =====
-- The names that the modules share: those of the libraries, passed on, and the helpers of two
-- children (Boolean tests on numbers, and lists).
pub mod Tests
pub mod Lists
pub mod Text
pub use Tests.*
pub use Text.{ℤ, pos, negsuc, below_one, outside, magnitude, trim_prefix, atoi}
unfoldable pub use Lists.{select}
pub use Lists.{
  All, All-map, All-take, All-select, All-if, length, take, length-append, length-take_le,
  select-append, Chosen, none_left, takes, leaves, select-Chosen,
}
pub use Prim.Native.Nat.{ℕ, zero, suc, ◌+◌, ◌-◌, ◌*◌, ◌/◌, ◌%◌, ◌^◌, ◌≤◌, ◌<◌}
pub use Prim.Native.String.{String, ◌++◌ as str_append}
pub use mathlib.Core.Path.{◌≡◌, refl, sym, ap, ◌∙◌, subst}
pub use mathlib.Core.Logic.{◌≢◌, ◌↔◌, ◌⊎◌, inl, inr}
pub use mathlib.Core.Bool.{Bool, true, false, not, ◌&&◌, ◌||◌}
pub use mathlib.Core.Option.{Option, none, some, some-injective}
pub use mathlib.Core.List.Memᴰ.{head, tail}
pub use mathlib.Core.List.{Memᴰ, List, [], ◌∷◌, ◌++◌, map, append-nil}
pub use native.Mathlib.Omega.{arith}
pub use text.Mathlib.Text.{◌==◌ as str_eq}
pub use text.Mathlib.TextEquality.{eq_iff}

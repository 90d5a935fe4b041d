-- ===== src/Prelude.antt =====
-- The names that the other modules share: the libraries', passed on, and those of the children.
pub mod Tests
pub mod Lists
pub mod Text
pub mod Int
pub mod Maps
pub mod Floats
pub use Tests.*
pub use Lists.*
unfoldable pub use Lists.{sort_by}
unfoldable pub use Text.{beq, starts_with, trim_space, itoa, itoa_fuel}
unfoldable pub use Int.{◌+ℤ◌, ◌-ℤ◌, wrap_64}
unfoldable pub use Maps.{lookup, insert, erase}
unfoldable pub use Floats.{micro}
pub use Text.{Bytes, str, beq_sound, beq_refl, beq_iff, beq_ne, is_empty, starts_with-append}
pub use Int.{
  ℤ, pos, negsuc, pos_part, neg_part, ◌≤ℤ◌, ◌<ℤ◌, ltb_ℤ, leb_ℤ, leb_ℤ→≤ℤ, ≤ℤ→leb_ℤ, int_laws,
  wrap_64_small, sub_ℕ, sub_ℕ_of_le, wrap_64-sub_ℕ, sub_ℕ_minus,
}
pub use Maps.{
  Dict, IsDict, lookup-insert, lookup-insert_self, lookup-insert_ne, insert-IsDict,
  lookup-erase_self, lookup-erase_ne, erase-IsDict, length-erase,
}
pub use Floats.{Float, zero_usd, positive, AtMost, max_usd, FloatLaws, fixed_float, fixed_laws}
pub use Prim.Native.Nat.{ℕ, zero, suc, ◌+◌, ◌-◌, ◌*◌, ◌/◌, ◌%◌, ◌≤◌, ◌<◌}
pub use mathlib.Core.Path.{◌≡◌, refl, sym, ap, subst, ◌∙◌}
pub use mathlib.Core.Logic.{◌≢◌, ◌↔◌, ◌⊎◌, inl, inr}
pub use mathlib.Core.Bool.{Bool, true, false, not, ◌&&◌, ◌||◌}
pub use mathlib.Core.Option.{Option, none, some}
pub use mathlib.Core.List.{List, [], ◌∷◌, ◌++◌, map}
pub use native.Mathlib.Omega.{arith}

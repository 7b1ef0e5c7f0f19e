-- ===== src/Prelude.antt =====
-- The names that the other modules share.
mod Tests
mod Lists
mod Int
mod Text
mod Split
pub use Prim.Native.Nat.{ℕ, zero, suc, ◌+◌, ◌-◌, ◌*◌, ◌/◌, ◌%◌, ◌^◌, ◌≤◌, ◌<◌}
pub use Prim.Native.String.{String}
pub use mathlib.Core.Path.{◌≡◌, refl, sym, ap, ◌∙◌}
pub use mathlib.Core.Logic.{◌≢◌, ◌↔◌, ◌⊎◌, inl, inr}
pub use mathlib.Core.Bool.{Bool, true, false, not, ◌&&◌, ◌||◌}
pub use mathlib.Core.Option.{Option, none, some}
pub use mathlib.Core.List.{List, [], ◌∷◌, ◌++◌, map}
pub use native.Mathlib.Omega.{arith}
pub use Tests.{ltb, leb, ◌==◌, if◌then◌else◌, ==_iff, Bool-cases, Option-cases, and_parts, some_inj}
pub use Lists.{
  length, get_elem?, replicate, all, any, All, length-append, length-replicate, All-append,
}
pub use Int.{
  ℤ, pos, negsuc, pos_part, neg_part, ◌≤ℤ◌, ◌<ℤ◌, ltb_ℤ, leb_ℤ, eqb_ℤ, eqb_ℤ→eq, eqb_ℤ-refl,
  max_int64, IsInt64, wrap64-IsInt64, wrap64_id, add64_pos, sub64_pos, mul64_pos, +ℤ_pos, *ℤ_pos,
}
unfoldable pub use Int.{◌+ℤ◌, ◌-ℤ◌, ◌*ℤ◌, wrap64, add64, sub64, mul64}
pub use Text.{Bytes, codes, bytes_eq_refl, bytes_eq→eq, bytes_eq_iff, is_digit, is_alpha, is_empty}
unfoldable pub use Text.{bytes_eq}
pub use Split.{join_with, join_with-split_on, Lacks, split_on_single, split_on-append}
unfoldable pub use Split.{split_on}

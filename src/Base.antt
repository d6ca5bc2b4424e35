-- ===== src/Base.antt =====
-- The names that the other modules share: those of the libraries, passed on, and the shared types,
-- tests and lemmas of the modules below.
mod Tests
mod Lists
mod Equality
pub mod Dict
pub mod Exec
pub mod Int
mod Raising
pub use Tests.*
pub use Lists.*
pub use Equality.*
pub use Raising.*
pub use Int.{
  ℤ, pos, negsuc, pos_part, neg_part, sub_ℕ, ◌≤ℤ◌, ltb_ℤ, int_laws, eq_of_parts, +ℤ_parts, -ℤ_parts,
  int_eq, div_thousand, mod_thousand,
}
unfoldable pub use Int.{◌+ℤ◌, ◌-ℤ◌, times_thousand, neg_ℤ}
pub use Prim.Native.Nat.{ℕ, zero, suc, ◌+◌, ◌-◌, ◌*◌, ◌/◌, ◌%◌, ◌^◌, ◌≤◌, ◌<◌}
pub use mathlib.Core.Path.{◌≡◌, refl, sym, ap, ◌∙◌, subst, ◌≡⟨◌⟩◌, ◌∎}
pub use mathlib.Core.Logic.{◌≢◌, ◌↔◌, ◌⊎◌, inl, inr}
pub use mathlib.Core.Bool.{Bool, true, false, not, ◌&&◌, ◌||◌}
pub use mathlib.Core.Option.{Option, none, some}
pub use mathlib.Core.List.{List, [], ◌∷◌, ◌++◌, map, append-nil, append_assoc}
pub use native.Mathlib.Omega.{arith}

-- ===== src/Base.antt =====
-- The names that the modules share: the libraries', passed on, and those of the children, which
-- hold Boolean tests (Tests), Go maps (Maps), and state with failure and its rules (Exec).
mod Tests
mod Maps
pub mod Exec
pub mod Outcomes
pub mod Returns
pub mod Take
pub use Tests.*
unfoldable pub use Maps.{lookup, insert, erase, overlay, remember, restrict}
pub use Maps.{
  Assoc, lookup-insert, lookup-erase, lookup-overlay, lookup-remember, lookup-restrict,
  lookup-insert_other, lookup-erase_other,
}
pub use Prim.Native.Nat.{ℕ, zero, suc, ◌+◌, ◌-◌, ◌*◌, ◌/◌, ◌%◌, ◌^◌, ◌≤◌, ◌<◌}
pub use Prim.Native.String.{String}
pub use mathlib.Core.Path.{◌≡◌, refl, sym, ap, ◌∙◌, subst}
pub use mathlib.Core.Logic.{◌≢◌, ◌↔◌, ◌⊎◌, inl, inr}
pub use mathlib.Core.Bool.{Bool, true, false, not, ◌&&◌, ◌||◌}
pub use mathlib.Core.Option.{Option, none, some}
pub use mathlib.Core.List.{List, [], ◌∷◌, ◌++◌, map}
pub use native.Mathlib.Omega.{arith}
pub use text.Mathlib.Text.{◌==◌}
pub use text.Mathlib.TextEquality.{eq_iff}
pub use text.Mathlib.TextPositions.{eq_refl}

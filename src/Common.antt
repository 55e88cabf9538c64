-- ===== src/Common.antt =====
-- Names shared by all modules: the libraries' passed on, and the helpers of the children.
mod Tests
mod Lists
pub mod Text
pub mod Dict
pub mod Ratio
pub mod Rising
pub mod Run
pub mod Digits
pub use Tests.*
pub use Lists.*
pub use Prim.Native.Nat.{ℕ, zero, suc, ◌+◌, ◌-◌, ◌*◌, ◌/◌, ◌%◌, ◌≤◌, ◌<◌, min, max}
pub use mathlib.Core.Path.{◌≡◌, refl, sym, ap, subst, ap₂, ◌∙◌}
pub use mathlib.Core.Logic.{◌≢◌, ◌↔◌, ◌⊎◌, inl, inr, ite, if_pos, if_neg}
pub use mathlib.Core.Bool.{Bool, true, false, ◌&&◌, ◌||◌, not}
pub use mathlib.Core.Option.{Option, none, some}
pub use mathlib.Core.List.{List, [], ◌∷◌, ◌++◌, map, append-nil, append_assoc, map-append}
pub use native.Mathlib.Omega.{arith}

-- For `simp`: lists in one normal form.
pub ruleset list_laws = (append-nil, append_assoc, map-append)

-- For `grind`: how long lists are.
pub ruleset sizes = (arith, length-append)

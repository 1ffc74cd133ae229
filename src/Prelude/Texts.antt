-- ===== src/Prelude/Texts.antt =====
-- Native texts: equality tests, membership in a literal set, lookup in a literal table.
use Prim.Native.String.{String, compare}
use mathlib.Core.Path.{◌≡◌}
use mathlib.Core.Bool.{Bool, true, false, ◌||◌}
use mathlib.Core.Option.{Option, none, some}
use mathlib.Core.List.{List, [], ◌∷◌}
use text.Mathlib.Text.{is_lt}
use dotclaude_ecosystem.Prelude.Tests.{if◌then◌else◌}
pub use text.Mathlib.Text.{◌==◌, starts_with}
pub use text.Mathlib.TextEquality.{eq_iff}
pub use text.Mathlib.TextPositions.{eq_refl}

-- `a < b` on `str`, which for UTF-8 is the order of the code points.
abbrev pub str_ltb : String → String → Bool
str_ltb a b = is_lt (compare a b)

abbrev pub mem_str : String → List String → Bool
mem_str a [] = false
mem_str a (x ∷ xs) = (a == x) || mem_str a xs

-- `dict.get` on a literal table.
abbrev pub get {ℓ} : {V : Type ℓ} → List (String × V) → String → Option V
get [] k = none
get ((j, v) ∷ rest) k = if k == j then some v else get rest k

-- `column = ?` on a nullable column, which NULL never satisfies.
abbrev pub opt_eq : Option String → String → Bool
opt_eq none k = false
opt_eq (some j) k = j == k

pub ==→≡ : (a b : String) → (a == b) ≡ true → a ≡ b
==→≡ a b = (eq_iff a b).0

-- ===== src/Base/Texts.antt =====
-- Lemmas on texts.
use Prim.Native.Char.{Char}
use mathlib.Core.Path.{◌≡◌}
use mathlib.Core.Bool.{false}
use mathlib.Core.Logic.{inl, inr}
use text.Mathlib.Text.{◌==◌ as str_eq}
use text.Mathlib.TextEquality.{eq_iff}
use gframework.Base.Tests.{Bool-cases}
use Prim.Native.String.{String}

pub cons_nonempty : (c : Char) (s : String) → str_eq (String.◌∷◌ c s) "" ≡ false
cons_nonempty c s = elim (Bool-cases (str_eq (String.◌∷◌ c s) "")) [
  | inl same ↦ absurd (cc ((eq_iff (String.◌∷◌ c s) "").0 same))
  | inr other ↦ other
]

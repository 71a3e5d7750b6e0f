-- ===== src/Prelude/Texts.antt =====
-- Tests of texts.
use Prim.Native.String.{String}
use mathlib.Core.Path.{◌≡◌, sym, ◌∙◌}
use mathlib.Core.Logic.{◌≢◌, inl, inr}
use mathlib.Core.Bool.{false, false≢true}
use text.Mathlib.Text.{◌==◌ as str_eq}
use text.Mathlib.TextEquality.{eq_iff}
use linuxcnc_ctrl.Prelude.Tests.{Bool-cases}

pub str_eq-of_ne : (a b : String) → a ≢ b → str_eq a b ≡ false
str_eq-of_ne a b h = elim (Bool-cases (str_eq a b)) [
  | inl same ↦ absurd (h ((eq_iff a b).0 same))
  | inr differ ↦ differ
]

pub ne_of_str_eq : (a b : String) → str_eq a b ≡ false → a ≢ b
ne_of_str_eq a b h e = false≢true (sym h ∙ (eq_iff a b).1 e)

-- ===== src/Common/Texts.antt =====
-- Texts: their order, and that those the test finds equal are equal.
use Prim.Native.String.{String}
use Prim.Native.Char.{code}
use text.Mathlib.Text.{◌==◌ as str_eq}
use text.Mathlib.TextEquality.{path_by_compare}
use mathlib.Core.Path.{◌≡◌, refl, sym, ap, subst, ◌∙◌}
use mathlib.Core.Logic.{inl, inr}
use mathlib.Core.Bool.{Bool, true, false}
use kis_autotrader.Common.Tests.{Bool-cases, ltb, if◌then◌else◌}
use native.Mathlib.Omega.{arith}

pub str_eq_path : (x y : String) → str_eq x y ≡ true → x ≡ y
str_eq_path x y h = path_by_compare x y (ground arith)

pub eq_symm : (x y : String) → str_eq x y ≡ str_eq y x
eq_symm x y = elim (Bool-cases (str_eq x y)) [
  | inl h ↦ subst (λ z. str_eq x z ≡ str_eq z x) (str_eq_path x y h) refl
  | inr h ↦ elim (Bool-cases (str_eq y x)) [
    | inl k ↦ subst (λ z. str_eq z y ≡ str_eq y z) (str_eq_path y x k) refl
    | inr k ↦ h ∙ sym k
  ]
]

-- Two keys that are equal to the test are so for every other key.
pub eq_cong : (i k j : String) → str_eq i k ≡ true → str_eq i j ≡ str_eq k j
eq_cong i k j h = ap (λ w. str_eq w j) (str_eq_path i k h)

-- `s < t`: Python compares texts by their code points.
unfoldable pub text_lt : String → String → Bool
text_lt s String.[] = false
text_lt String.[] (String.◌∷◌ d t) = true
text_lt (String.◌∷◌ c s) (String.◌∷◌ d t) =
    let rest = text_lt s t in
    if ltb (code c) (code d) then true else if ltb (code d) (code c) then false else rest

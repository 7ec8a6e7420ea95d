-- ===== src/Common/Dict.antt =====
-- A dict with text keys, as its entries in the order of insertion. A real dict has one entry for a
-- key, so taking a key out takes all its entries.
pub mod Keys
use Prim.Native.String.{String}
use text.Mathlib.Text.{◌==◌ as str_eq}
use text.Mathlib.TextPositions.{eq_refl}
use kis_autotrader.Common.{
  ℕ, suc, ◌≡◌, refl, ap, Bool, true, false, not, Option, none, some, List, [], ◌∷◌, arith, inl, inr,
  Bool-cases, if◌then◌else◌,
}
use kis_autotrader.Common.Texts.{eq_cong, eq_symm}

module _ {V : Type 0} where
  -- `d.get(k)`
  unfoldable pub lookup : String → List (String × V) → Option V
  lookup k [] = none
  lookup k ((j, v) ∷ d) = if str_eq j k then some v else lookup k d

  -- `d.pop(k, None)` and `del d[k]`
  unfoldable pub remove : String → List (String × V) → List (String × V)
  remove k [] = []
  remove k ((j, v) ∷ d) = let others = remove k d in if str_eq j k then others else (j, v) ∷ others

  -- `d[k] = v`
  unfoldable pub put : String → V → List (String × V) → List (String × V)
  put k v [] = (k, v) ∷ []
  put k v ((j, w) ∷ d) =
      let others = put k v d in if str_eq j k then (j, v) ∷ d else (j, w) ∷ others

  pub lookup-remove :
      (j k : String) (d : List (String × V))
      → lookup j (remove k d) ≡ (if str_eq k j then none else lookup j d)
  unfolding lookup remove
  lookup-remove j k [] = ground arith
  lookup-remove j k ((i, w) ∷ d) = elim (Bool-cases (str_eq i k)) [
    | inl h ↦ rw h (ground (arith, lookup-remove j k d, eq_cong i k j h))
    | inr h ↦ rw h (elim (Bool-cases (str_eq i j)) [
      | inl e ↦ rw e (ground (arith, eq_cong i j k e, eq_symm j k, h))
      | inr e ↦ rw e (lookup-remove j k d)
    ])
  ]

  pub lookup-put :
      (j k : String) (v : V) (d : List (String × V))
      → lookup j (put k v d) ≡ (if str_eq k j then some v else lookup j d)
  unfolding lookup put
  lookup-put j k v [] = refl
  lookup-put j k v ((i, w) ∷ d) = elim (Bool-cases (str_eq i k)) [
    | inl h ↦ rw h (ground (arith, eq_cong i k j h))
    | inr h ↦ rw h (elim (Bool-cases (str_eq i j)) [
      | inl e ↦ rw e (ground (arith, eq_cong i j k e, eq_symm j k, h))
      | inr e ↦ rw e (lookup-put j k v d)
    ])
  ]

-- ===== src/Common/Dict/Keys.antt =====
-- Dicts with one entry for each key.
use Prim.Native.String.{String}
use text.Mathlib.Text.{◌==◌ as str_eq}
use text.Mathlib.TextPositions.{eq_refl}
use kis_autotrader.Common.{
  ◌≡◌, refl, Bool, none, some, List, [], ◌∷◌, arith, inl, inr, All, Bool-cases, keep,
}
use kis_autotrader.Common.Texts.{eq_symm}
use kis_autotrader.Common.Dict.{lookup, remove, put, lookup-remove, lookup-put}

module _ {V : Type 0} where
  abbrev pub HasUniqueKeys : List (String × V) → Type 0
  HasUniqueKeys [] = Unit
  HasUniqueKeys ((k, v) ∷ d) = (lookup k d ≡ none) × HasUniqueKeys d

  pub remove-HasUniqueKeys :
      (k : String) (d : List (String × V)) → HasUniqueKeys d → HasUniqueKeys (remove k d)
  unfolding remove
  remove-HasUniqueKeys k [] h = tt
  remove-HasUniqueKeys k ((j, v) ∷ d) (h, hs) = elim (Bool-cases (str_eq j k)) [
    | inl e ↦ rw e (remove-HasUniqueKeys k d hs)
    | inr e ↦ rw e (ground (arith, lookup-remove j k d, eq_symm j k), remove-HasUniqueKeys k d hs)
  ]

  pub put-HasUniqueKeys :
      (k : String) (v : V) (d : List (String × V)) → HasUniqueKeys d → HasUniqueKeys (put k v d)
  unfolding put lookup
  put-HasUniqueKeys k v [] h = (refl, tt)
  put-HasUniqueKeys k v ((j, w) ∷ d) (h, hs) = elim (Bool-cases (str_eq j k)) [
    | inl e ↦ rw e (h, hs)
    | inr e ↦ rw e (ground (arith, lookup-put j k v d, eq_symm j k, h), put-HasUniqueKeys k v d hs)
  ]

  pub lookup-keep :
      (q : String × V → Bool) (k : String) (d : List (String × V))
      → lookup k d ≡ none
      → lookup k (keep q d) ≡ none
  unfolding lookup
  lookup-keep q k [] h = refl
  lookup-keep q k ((j, v) ∷ d) h = ground (arith, lookup-keep q k d)

  pub keep-HasUniqueKeys :
      (q : String × V → Bool) (d : List (String × V)) → HasUniqueKeys d → HasUniqueKeys (keep q d)
  keep-HasUniqueKeys q [] h = tt
  keep-HasUniqueKeys q ((j, v) ∷ d) (h, hs) = elim (Bool-cases (q (j, v))) [
    | inl e ↦ rw e (lookup-keep q j d h, keep-HasUniqueKeys q d hs)
    | inr e ↦ rw e (keep-HasUniqueKeys q d hs)
  ]

  -- The entries of a list stand in the dict.
  abbrev pub AreEntries : List (String × V) → List (String × V) → Type 0
  AreEntries es d = All (λ (e : String × V). lookup e.0 d ≡ some e.1) es

  -- Another key in front hides no entry whose key is not that one.
  weaken :
      (k : String) (v : V) (es d : List (String × V))
      → lookup k es ≡ none
      → AreEntries es d
      → AreEntries es ((k, v) ∷ d)
  unfolding lookup
  weaken k v [] d h a = tt
  weaken k v ((j, w) ∷ es) d h (a, rest) =
      (ground (arith, eq_symm j k), weaken k v es d (ground arith) rest)

  pub self-AreEntries : (d : List (String × V)) → HasUniqueKeys d → AreEntries d d
  unfolding lookup
  self-AreEntries [] h = tt
  self-AreEntries ((k, v) ∷ d) (h, hs) =
      (rw (eq_refl k) refl, weaken k v d d h (self-AreEntries d hs))

  pub keep-AreEntries :
      (q : String × V → Bool) (es d : List (String × V))
      → AreEntries es d
      → AreEntries (keep q es) d
  keep-AreEntries q [] d a = tt
  keep-AreEntries q (e ∷ es) d (a, rest) = elim (Bool-cases (q e)) [
    | inl h ↦ rw h (a, keep-AreEntries q es d rest)
    | inr h ↦ rw h (keep-AreEntries q es d rest)
  ]

  -- Entries stay when another key is taken out.
  pub remove-AreEntries :
      (k : String) (es d : List (String × V))
      → lookup k es ≡ none
      → AreEntries es d
      → AreEntries es (remove k d)
  unfolding lookup
  remove-AreEntries k [] d h a = tt
  remove-AreEntries k ((j, w) ∷ es) d h (a, rest) = (
    ground (arith, lookup-remove j k d, eq_symm j k),
    remove-AreEntries k es d (ground arith) rest,
  )

-- ===== src/Screening/Merge/Union.antt =====
-- Which candidates the merged rankings give.
use Prim.Native.String.{String}
use text.Mathlib.Text.{◌==◌ as str_eq}
use kis_autotrader.Common.{
  ◌≡◌, refl, ap, sym, subst, ◌∙◌, Bool, true, false, ◌||◌, Option, none, some, List, [], ◌∷◌, inl,
  inr, Bool-cases, All, arith,
}
use kis_autotrader.Common.Texts.{str_eq_path}
use kis_autotrader.Common.Dict.{lookup, put, lookup-put}
use kis_autotrader.Common.Dict.Keys.{HasUniqueKeys, put-HasUniqueKeys}
use kis_autotrader.Float.{Float}
use kis_autotrader.Python.{is_some}
use kis_autotrader.Screening.{RankItem, MergedCandidate}
use kis_autotrader.Screening.Merge.{merged_with, merge_items, merge_sources, values, merge_rankings}

-- What holds of the entries of a dict holds after an entry is set.
all-put :
    {A : Type 0}
    → (P : String × A → Type 0) (k : String) (v : A) (d : List (String × A))
    → ((j : String) → j ≡ k → P (j, v))
    → All P d
    → All P (put k v d)
unfolding put
all-put P k v [] h a = (h k refl, tt)
all-put P k v ((j, w) ∷ d) h (a, rest) = elim (Bool-cases (str_eq j k)) [
  | inl e ↦ rw e (h j (str_eq_path j k e), rest)
  | inr e ↦ rw e (a, all-put P k v d h rest)
]

all-lookup :
    {A : Type 0}
    → (P : String × A → Type 0) (k : String) (v : A) (d : List (String × A)) → All P d
    → lookup k d ≡ some v
    → P (k, v)
unfolding lookup
all-lookup P k v [] a h = absurd (ground arith)
all-lookup P k v ((j, w) ∷ d) (a, rest) h = elim (Bool-cases (str_eq j k)) [
  | inl e ↦ subst (λ i. P (i, v)) (str_eq_path j k e) (subst (λ u. P (j, u)) (first_found e) a)
  | inr e ↦ all-lookup P k v d rest (ground arith)
]
  where
    first_found : str_eq j k ≡ true → w ≡ v
    first_found e = ground arith

module _ {F : Type 0} where
  -- The candidates by their codes.
  abbrev pub keyed : List (MergedCandidate F) → List (String × MergedCandidate F)
  keyed [] = []
  keyed (c ∷ cs) = (c.stock_code, c) ∷ keyed cs

  -- An item of the code stands in a ranking, in one of the sources.
  abbrev pub mentions : String → List (RankItem F) → Bool
  mentions code [] = false
  mentions code (it ∷ items) = str_eq it.stock_code code || mentions code items

  abbrev pub mentioned : String → List (String × List (RankItem F)) → Bool
  mentioned code [] = false
  mentioned code ((source, items) ∷ sources) = mentions code items || mentioned code sources

  -- A candidate stands under its own code.
  abbrev IsNamed : String × MergedCandidate F → Type 0
  IsNamed e = e.1.stock_code ≡ e.0

  keyed-values : (d : List (String × MergedCandidate F)) → All IsNamed d → keyed (values d) ≡ d
  keyed-values [] a = refl
  keyed-values ((k, c) ∷ d) (e, rest) = rw (e, keyed-values d rest) refl

or-true : (b : Bool) → (b || true) ≡ true
or-true true = refl
or-true false = refl

or_assoc : (a b c : Bool) → (a || (b || c)) ≡ ((b || a) || c)
or_assoc true true c = refl
or_assoc true false c = refl
or_assoc false true c = refl
or_assoc false false c = refl

or-false : (b : Bool) → (b || false) ≡ b
or-false true = refl
or-false false = refl

module _ {F : Type 0} ⦃N : Float F⦄ where
  merged_with_code :
      (source : String) (it : RankItem F) (d : List (String × MergedCandidate F))
      → All IsNamed d
      → (merged_with source it (lookup it.stock_code d)).stock_code ≡ it.stock_code
  merged_with_code source it d a = found (lookup it.stock_code d) refl
    where
      found :
          (o : Option (MergedCandidate F))
          → lookup it.stock_code d ≡ o
          → (merged_with source it (lookup it.stock_code d)).stock_code ≡ it.stock_code
      found none e = rw (merged_with, e) refl
      found (some c) e = rw (merged_with, e) (all-lookup IsNamed it.stock_code c d a e)

  -- What is shown of the dict behind some of the items.
  merge_items_lem :
      (source : String) (items : List (RankItem F)) (d : List (String × MergedCandidate F))
      → HasUniqueKeys d
      → All IsNamed d
      → let d' = merge_items source items d in
        HasUniqueKeys d'
        × All IsNamed d'
        × ((code : String)
            → is_some (lookup code d') ≡ (mentions code items || is_some (lookup code d)))
  unfolding merge_items
  merge_items_lem source [] d u a = (u, a, λ code. refl)
  merge_items_lem source (it ∷ items) d u a =
      let v : MergedCandidate F = merged_with source it (lookup it.stock_code d) in
      let (u', a', m) =
        merge_items_lem source items (put it.stock_code v d) (put-HasUniqueKeys it.stock_code v d u)
          (all-put IsNamed it.stock_code v d (λ j e. merged_with_code source it d a ∙ sym e) a) in
      (
        u',
        a',
        λ code.
            m code
            ∙ rw (lookup-put code it.stock_code v d)
                (elim (Bool-cases (str_eq it.stock_code code)) [
                  | inl e ↦ rw e (or-true (mentions code items))
                  | inr e ↦ rw e refl
                ]),
      )

  merge_sources_lem :
      (sources : List (String × List (RankItem F))) (d : List (String × MergedCandidate F))
      → HasUniqueKeys d
      → All IsNamed d
      → let d' = merge_sources sources d in
        HasUniqueKeys d'
        × All IsNamed d'
        × ((code : String)
            → is_some (lookup code d') ≡ (mentioned code sources || is_some (lookup code d)))
  merge_sources_lem [] d u a = (u, a, λ code. refl)
  merge_sources_lem ((source, items) ∷ sources) d u a =
      let (u', a', m) = merge_items_lem source items d u a in
      let (u'', a'', m') = merge_sources_lem sources (merge_items source items d) u' a' in
      (
        u'',
        a'',
        λ code.
            m' code
            ∙ ap (λ b. mentioned code sources || b) (m code)
            ∙ or_assoc (mentioned code sources) (mentions code items) (is_some (lookup code d)),
      )

  -- The merged rankings have one candidate for each code that stands in one of the sources, and no
  -- other.
  pub merge_rankings-HasUniqueKeys :
      (sources : List (String × List (RankItem F)))
      → let d = keyed (merge_rankings sources) in
        HasUniqueKeys d × ((code : String) → is_some (lookup code d) ≡ mentioned code sources)
  unfolding merge_rankings lookup
  merge_rankings-HasUniqueKeys sources =
      let (u, a, m) = merge_sources_lem sources [] tt tt in
      rw (keyed-values (merge_sources sources []) a)
        (u, λ code. m code ∙ or-false (mentioned code sources))

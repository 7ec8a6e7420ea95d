-- ===== src/Harness/Progress/Moves.antt =====
-- What transitions do to the lists of a progress.
use Prim.Native.String.{String}
use text.Mathlib.Text.{◌==◌ as str_eq}
use text.Mathlib.TextPositions.{eq_refl}
use kis_autotrader.Common.{
  ℕ, ◌+◌, ◌≤◌, ◌≡◌, refl, ap, ◌∙◌, true, false, some, List, [], ◌∷◌, ◌++◌, arith, inl, inr,
  Bool-cases, if◌then◌else◌,
}
use kis_autotrader.Common.Texts.{str_eq_path}
use kis_autotrader.Harness.Progress.{
  StateTransition, ListField, CycleProgress, state_list_field, get, set, contains, remove, leave,
  join, transition, transitions,
}

-- How often a path stands in a list, and in all lists.
abbrev pub occurrences : String → List String → ℕ
occurrences x [] = 0
occurrences x (y ∷ ys) = (if str_eq x y then 1 else 0) + occurrences x ys

unfoldable pub total : String → CycleProgress → ℕ
total x p =
    occurrences x p.pending
    + occurrences x p.in_flight
    + occurrences x p.completed
    + occurrences x p.failed
    + occurrences x p.skipped

occurrences-append :
    (x : String) (xs ys : List String)
    → occurrences x (xs ++ ys) ≡ occurrences x xs + occurrences x ys
occurrences-append x [] ys = omega arith
occurrences-append x (z ∷ xs) ys = omega (arith, occurrences-append x xs ys)

occurrences-contains :
    (x : String) (xs : List String) → occurrences x xs ≡ 0 → contains x xs ≡ false
occurrences-contains x [] h = refl
occurrences-contains x (y ∷ ys) h = ground (arith, occurrences-contains x ys)

get-set : (f : ListField) (xs : List String) (p : CycleProgress) → get f (set f xs p) ≡ xs
unfolding get set
get-set ListField.pending xs p = refl
get-set ListField.in_flight xs p = refl
get-set ListField.completed xs p = refl
get-set ListField.failed xs p = refl
get-set ListField.skipped xs p = refl

total-set :
    (x : String) (f : ListField) (xs : List String) (p : CycleProgress)
    → total x (set f xs p) + occurrences x (get f p) ≡ total x p + occurrences x xs
unfolding total get set
total-set x ListField.pending xs p = omega arith
total-set x ListField.in_flight xs p = omega arith
total-set x ListField.completed xs p = omega arith
total-set x ListField.failed xs p = omega arith
total-set x ListField.skipped xs p = omega arith

get-total : (x : String) (f : ListField) (p : CycleProgress) → occurrences x (get f p) ≤ total x p
unfolding total get
get-total x ListField.pending p = omega arith
get-total x ListField.in_flight p = omega arith
get-total x ListField.completed p = omega arith
get-total x ListField.failed p = omega arith
get-total x ListField.skipped p = omega arith

occurrences-remove :
    (x y : String) (ys : List String)
    → contains y ys ≡ true
    → occurrences x (remove y ys) + (if str_eq x y then 1 else 0) ≡ occurrences x ys
occurrences-remove x y [] h = absurd (ground arith)
occurrences-remove x y (z ∷ zs) h = elim (Bool-cases (str_eq y z)) [
  | inl e ↦ let q : y ≡ z = str_eq_path y z e in rw e (ground (arith, ap (λ w. str_eq x w) q))
  | inr e ↦ rw e (ground (arith, occurrences-remove x y zs (ground arith)))
]

contains-append : (x : String) (xs : List String) → contains x (xs ++ (x ∷ [])) ≡ true
contains-append x [] = rw (eq_refl x) refl
contains-append x (y ∷ ys) = ground (arith, contains-append x ys)

leave-total :
    (x path : String) (f : ListField) (p : CycleProgress)
    → contains path (get f p) ≡ true
    → total x (leave path (some f) p) + (if str_eq x path then 1 else 0) ≡ total x p
unfolding leave
leave-total x path f p h =
    rw h (
      omega (arith, total-set x f (remove path (get f p)) p, occurrences-remove x path (get f p) h))

join-total :
    (x path : String) (g : ListField) (p : CycleProgress)
    → total path p ≡ 0
    → total x (join path (some g) p) ≡ total x p + (if str_eq x path then 1 else 0)
unfolding join
join-total x path g p h =
    rw (occurrences-contains path (get g p) (omega (arith, get-total path g p))) (
      omega (
        arith,
        total-set x g (get g p ++ (path ∷ [])) p,
        occurrences-append x (get g p) (path ∷ []),
      ))

join-contains :
    (path : String) (g : ListField) (p : CycleProgress)
    → contains path (get g (join path (some g) p)) ≡ true
unfolding join
join-contains path g p = elim (Bool-cases (contains path (get g p))) [
  | inl h ↦ rw h h
  | inr h ↦ rw h (rw (get-set g (get g p ++ (path ∷ [])) p) (contains-append path (get g p)))
]

-- A move from the list that holds the path: the path stands in that list and nowhere else, and both
-- states have a list.
pub record IsMove (t : StateTransition) (p : CycleProgress) : Type 0 where
  pub source : ListField
  pub target : ListField
  pub is_source : state_list_field t.from_state ≡ some source
  pub is_target : state_list_field t.to_state ≡ some target
  pub listed : contains t.path (get source p) ≡ true
  pub once : total t.path p ≡ 1

get-history :
    (f : ListField) (h : List StateTransition) (p : CycleProgress)
    → get f (record p { history = h }) ≡ get f p
unfolding get
get-history ListField.pending h p = refl
get-history ListField.in_flight h p = refl
get-history ListField.completed h p = refl
get-history ListField.failed h p = refl
get-history ListField.skipped h p = refl

total-history :
    (x : String) (h : List StateTransition) (p : CycleProgress)
    → total x (record p { history = h }) ≡ total x p
unfolding total
total-history x h p = refl

-- After a move from the list that holds the path, the path stands in the list of the new state, and
-- every path stands in the lists as often as before.
pub transition-total :
    (t : StateTransition) (p : CycleProgress)
    → (move : IsMove t p)
    → (contains t.path (get move.target (transition t p)) ≡ true)
      × ((x : String) → total x (transition t p) ≡ total x p)
unfolding transition
transition-total t p move =
    let h = p.history ++ (t ∷ []) in
    let noted : CycleProgress = record p { history = h } in
    let left = leave t.path (some move.source) noted in
    let listed : contains t.path (get move.source noted) ≡ true =
      rw (get-history move.source h p) move.listed in
    let taken = λ (x : String). leave-total x t.path move.source noted listed in
    let gone : total t.path left ≡ 0 =
      ground (arith, taken t.path, eq_refl t.path, total-history t.path h p, move.once) in
    (
      rw (move.is_source, move.is_target) (join-contains t.path move.target left),
      λ x.
          rw (move.is_source, move.is_target)
            (omega
              (arith, join-total x t.path move.target left gone, taken x, total-history x h p)),
    )

-- Transitions one after another, each a move from the list that holds its path then.
abbrev pub AreMoves : List StateTransition → CycleProgress → Type 0
AreMoves [] p = Unit
AreMoves (t ∷ ts) p = IsMove t p × AreMoves ts (transition t p)

-- A log of such moves loses no path and doubles none: every path stands in the lists as often as at
-- the log's start.
pub transitions-total :
    (ts : List StateTransition) (p : CycleProgress)
    → AreMoves ts p
    → (x : String) → total x (transitions ts p) ≡ total x p
unfolding transitions
transitions-total [] p moves x = refl
transitions-total (t ∷ ts) p (move, moves) x =
    transitions-total ts (transition t p) moves x ∙ (transition-total t p move).1 x

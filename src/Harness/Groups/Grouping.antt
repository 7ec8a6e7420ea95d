-- ===== src/Harness/Groups/Grouping.antt =====
-- The groups before they are sorted: each holds the proposals of one root, in order.
use kis_autotrader.Common.{
  ℕ, ◌+◌, ◌<◌, ◌≡◌, refl, sym, ap, ◌∙◌, arith, inl, inr, ◌==◌, Bool, false, List, [], ◌∷◌, ◌++◌,
  map, All, In, keep, count, count-snoc, append_empty, append_assoc, All-In, Bool-cases, ==_iff,
  if◌then◌else◌,
}
use kis_autotrader.Common.Sort.{sum_by}
use kis_autotrader.Harness.Groups.{Proposal, Parents, Groups, find, append_to, group_all}
use kis_autotrader.Harness.Groups.Forest.{IsForest, find-root}

-- The group that stands under a root.
abbrev pub group_of : ℕ → Groups → List Proposal
group_of s [] = []
group_of s ((r, g) ∷ groups) = if r == s then g else group_of s groups

abbrev pub HasUniqueRoots : Groups → Type 0
HasUniqueRoots [] = Unit
HasUniqueRoots ((r, g) ∷ groups) =
    All (λ (e : ℕ × List Proposal). (r == e.0) ≡ false) groups × HasUniqueRoots groups

group_of-append :
    (s r : ℕ) (p : Proposal) (groups : Groups)
    → group_of s (append_to r p groups)
      ≡ (if r == s then group_of s groups ++ (p ∷ []) else group_of s groups)
unfolding append_to
group_of-append s r p [] = refl
group_of-append s r p ((q, g) ∷ groups) = elim (Bool-cases (q == r)) [
  | inl e ↦
      rw e
        (elim (Bool-cases (r == s)) [ inl f ↦ ground (arith, e, f) | inr f ↦ ground (arith, e, f) ])
  | inr e ↦ rw e (elim (Bool-cases (q == s)) [
    | inl f ↦ ground (arith, e, f)
    | inr f ↦ rw f (group_of-append s r p groups)
  ])
]

append_to-All :
    (s r : ℕ) (p : Proposal) (groups : Groups)
    → (s == r) ≡ false
    → All (λ (e : ℕ × List Proposal). (s == e.0) ≡ false) groups
    → All (λ (e : ℕ × List Proposal). (s == e.0) ≡ false) (append_to r p groups)
unfolding append_to
append_to-All s r p [] h all = (h, tt)
append_to-All s r p ((q, g) ∷ groups) h (a, all) = elim (Bool-cases (q == r)) [
  | inl e ↦ rw e (a, all)
  | inr e ↦ rw e (a, append_to-All s r p groups h all)
]

append_to-HasUniqueRoots :
    (r : ℕ) (p : Proposal) (groups : Groups)
    → HasUniqueRoots groups
    → HasUniqueRoots (append_to r p groups)
unfolding append_to
append_to-HasUniqueRoots r p [] u = (tt, tt)
append_to-HasUniqueRoots r p ((q, g) ∷ groups) (a, u) = elim (Bool-cases (q == r)) [
  | inl e ↦ rw e (a, u)
  | inr e ↦ rw e (append_to-All q r p groups e a, append_to-HasUniqueRoots r p groups u)
]

unfoldable pub total : (Proposal → Bool) → Groups → ℕ
total t groups = sum_by (λ (e : ℕ × List Proposal). count t e.1) groups

append_to-total :
    (t : Proposal → Bool) (r : ℕ) (p : Proposal) (groups : Groups)
    → total t (append_to r p groups) ≡ total t groups + (if t p then 1 else 0)
unfolding append_to total
append_to-total t r p [] = omega arith
append_to-total t r p ((q, g) ∷ groups) = elim (Bool-cases (q == r)) [
  | inl e ↦ rw e (omega (arith, count-snoc t g p))
  | inr e ↦ rw e (omega (arith, append_to-total t r p groups))
]

-- Under unique roots the group of an entry is the one under its root.
pub group_of-In :
    (r : ℕ) (g : List Proposal) (groups : Groups)
    → HasUniqueRoots groups
    → In (r, g) groups
    → group_of r groups ≡ g
group_of-In r g [] u h = absurd h
group_of-In r g ((q, f) ∷ groups) (a, u) (inl e) = ground (arith, e)
group_of-In r g ((q, f) ∷ groups) (a, u) (inr h) =
    rw (All-In (λ (e : ℕ × List Proposal). (q == e.0) ≡ false) (r, g) groups a h)
      (group_of-In r g groups u h)

pub In-group_of :
    (r : ℕ) (p : Proposal) (groups : Groups)
    → In p (group_of r groups)
    → (g : List Proposal) × In (r, g) groups × (g ≡ group_of r groups)
In-group_of r p [] h = absurd h
In-group_of r p ((q, g) ∷ groups) h = elim (Bool-cases (q == r)) [
  | inl e ↦ rw e (g, inl (ap (λ n. (n, g)) (sym ((==_iff q r).0 e))), refl)
  | inr e ↦ rw e (let (f, m, k) = In-group_of r p groups (rw e at h) in (f, inr m, k))
]

-- The proposals whose index has a given root.
abbrev pub members : (ℕ → ℕ) → ℕ → List (ℕ × Proposal) → List Proposal
members root r rest = map (λ (x : ℕ × Proposal). x.1) (keep (λ x. root x.0 == r) rest)

-- The loop puts the proposals under their roots, in order.
module _ {root dist : ℕ → ℕ} {k : ℕ} (fuel : ℕ) (enough : k < fuel) where
  pub group_of-group_all :
      (rest : List (ℕ × Proposal)) (parent : Parents) (groups : Groups) (s : ℕ)
      → IsForest root dist k parent
      → group_of s (group_all fuel rest parent groups) ≡ group_of s groups ++ members root s rest
  unfolding group_all
  group_of-group_all [] parent groups s t = sym (append_empty (group_of s groups))
  group_of-group_all ((i, p) ∷ rest) parent groups s t =
      let (t', r) = find-root fuel parent i t (omega (arith, t.bounded i)) in
      group_of-group_all rest (find fuel parent i).0 (append_to (find fuel parent i).1 p groups) s
        t'
      ∙ rw r (elim (Bool-cases (root i == s)) [
        | inl e ↦
            rw (group_of-append s (root i) p groups, e)
              (append_assoc (group_of s groups) (p ∷ []) (members root s rest))
        | inr e ↦ rw (group_of-append s (root i) p groups, e) refl
      ])

module _ (fuel : ℕ) where
  pub group_all-HasUniqueRoots :
      (rest : List (ℕ × Proposal)) (parent : Parents) (groups : Groups)
      → HasUniqueRoots groups
      → HasUniqueRoots (group_all fuel rest parent groups)
  unfolding group_all
  group_all-HasUniqueRoots [] parent groups u = u
  group_all-HasUniqueRoots ((i, p) ∷ rest) parent groups u =
      group_all-HasUniqueRoots rest (find fuel parent i).0
        (append_to (find fuel parent i).1 p groups)
        (append_to-HasUniqueRoots (find fuel parent i).1 p groups u)

  pub group_all-total :
      (test : Proposal → Bool) (rest : List (ℕ × Proposal)) (parent : Parents) (groups : Groups)
      → total test (group_all fuel rest parent groups)
        ≡ total test groups + count test (map (λ (x : ℕ × Proposal). x.1) rest)
  unfolding group_all
  group_all-total test [] parent groups = omega arith
  group_all-total test ((i, p) ∷ rest) parent groups = omega (
    arith,
    group_all-total test rest (find fuel parent i).0 (append_to (find fuel parent i).1 p groups),
    append_to-total test (find fuel parent i).1 p groups,
  )

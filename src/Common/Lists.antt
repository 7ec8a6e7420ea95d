-- ===== src/Common/Lists.antt =====
-- Lists over the native numbers, and predicates on their items.
use Prim.Native.Nat.{ℕ, zero, suc, ◌+◌, ◌-◌, ◌≤◌}
use mathlib.Core.Bool.{Bool, true, not}
use mathlib.Core.Logic.{◌⊎◌, inl, inr}
use kis_autotrader.Common.Tests.{if◌then◌else◌, Bool-cases}
use mathlib.Core.Path.{◌≡◌, refl, sym, ap, subst}
use mathlib.Core.List.{List, [], ◌∷◌, ◌++◌, map}
use native.Mathlib.Omega.{arith}

module _ {ℓ} {A : Type ℓ} where
  abbrev pub length : List A → ℕ
  length [] = 0
  length (x ∷ xs) = suc (length xs)

  pub length-append : (xs ys : List A) → length (xs ++ ys) ≡ length xs + length ys
  length-append [] ys = omega arith
  length-append (x ∷ xs) ys = omega (arith, length-append xs ys)

  abbrev pub All {κ} : (A → Type κ) → List A → Type κ
  All P [] = Unit
  All P (x ∷ xs) = P x × All P xs

  pub append_empty : (xs : List A) → xs ++ [] ≡ xs
  append_empty [] = refl
  append_empty (x ∷ xs) = ap (λ ys. x ∷ ys) (append_empty xs)

  pub append_assoc : (xs ys zs : List A) → (xs ++ ys) ++ zs ≡ xs ++ (ys ++ zs)
  append_assoc [] ys zs = refl
  append_assoc (x ∷ xs) ys zs = ap (λ l. x ∷ l) (append_assoc xs ys zs)

  pub All-append {κ} : (P : A → Type κ) (xs ys : List A) → All P xs → All P ys → All P (xs ++ ys)
  All-append P [] ys p q = q
  All-append P (x ∷ xs) ys p q = (p.0, All-append P xs ys p.1 q)

  -- The first `n` items and the others.
  abbrev pub take : ℕ → List A → List A
  take zero xs = []
  take (suc n) [] = []
  take (suc n) (x ∷ xs) = x ∷ take n xs

  abbrev pub drop : ℕ → List A → List A
  drop zero xs = xs
  drop (suc n) [] = []
  drop (suc n) (x ∷ xs) = drop n xs

  -- `[x for x in xs if p(x)]`, on a Boolean test.
  abbrev pub keep : (A → Bool) → List A → List A
  keep p [] = []
  keep p (x ∷ xs) = if p x then x ∷ keep p xs else keep p xs

-- Membership with the place kept.
module _ {A : Type 0} where
  abbrev pub In : A → List A → Type 0
  In a [] = ⊥
  In a (x ∷ xs) = (a ≡ x) ⊎ In a xs

  pub In-take : (n : ℕ) (a : A) (xs : List A) → In a (take n xs) → In a xs
  In-take zero a xs h = absurd h
  In-take (suc n) a [] h = absurd h
  In-take (suc n) a (x ∷ xs) (inl e) = inl e
  In-take (suc n) a (x ∷ xs) (inr h) = inr (In-take n a xs h)

  pub In-keep : (p : A → Bool) (a : A) (xs : List A) → In a (keep p xs) → In a xs × (p a ≡ true)
  In-keep p a [] h = absurd h
  In-keep p a (x ∷ xs) h = elim (Bool-cases (p x)) [
    | inl e ↦ elim (rw e at h) [
      | inl q ↦ (inl q, rw q e)
      | inr m ↦ let (m', q) = In-keep p a xs m in (inr m', q)
    ]
    | inr e ↦ let (m', q) = In-keep p a xs (rw e at h) in (inr m', q)
  ]

  pub keep-In : (p : A → Bool) (a : A) (xs : List A) → In a xs → p a ≡ true → In a (keep p xs)
  keep-In p a [] h e = absurd h
  keep-In p a (x ∷ xs) h e = elim (Bool-cases (p x)) [
    | inl q ↦ rw q (elim h [ inl m ↦ inl m | inr m ↦ inr (keep-In p a xs m e) ])
    | inr q ↦ rw q (elim h [ inl m ↦ absurd (ground (arith, ap p m)) | inr m ↦ keep-In p a xs m e ])
  ]

  pub In-take-drop : (n : ℕ) (a : A) (xs : List A) → In a xs → In a (take n xs) ⊎ In a (drop n xs)
  In-take-drop zero a xs h = inr h
  In-take-drop (suc n) a [] h = absurd h
  In-take-drop (suc n) a (x ∷ xs) (inl e) = inl (inl e)
  In-take-drop (suc n) a (x ∷ xs) (inr h) = elim (In-take-drop n a xs h) [
    | inl t ↦ inl (inr t)
    | inr d ↦ inr d
  ]

  pub In-drop : (n : ℕ) (a : A) (xs : List A) → In a (drop n xs) → In a xs
  In-drop zero a xs h = h
  In-drop (suc n) a [] h = absurd h
  In-drop (suc n) a (x ∷ xs) h = inr (In-drop n a xs h)

  pub length-drop : (n : ℕ) (xs : List A) → length (drop n xs) ≡ length xs - n
  length-drop zero xs = omega arith
  length-drop (suc n) [] = omega arith
  length-drop (suc n) (x ∷ xs) = omega (arith, length-drop n xs)

  pub length-take : (n : ℕ) (xs : List A) → length (take n xs) ≤ n
  length-take zero xs = omega arith
  length-take (suc n) [] = omega arith
  length-take (suc n) (x ∷ xs) = omega (arith, length-take n xs)

  pub length-keep :
      (p : A → Bool) (xs : List A)
      → length (keep p xs) + length (keep (λ x. not (p x)) xs) ≡ length xs
  length-keep p [] = omega arith
  length-keep p (x ∷ xs) = ground (arith, length-keep p xs)

  pub All-In : (P : A → Type 0) (a : A) (xs : List A) → All P xs → In a xs → P a
  All-In P a [] p h = absurd h
  All-In P a (x ∷ xs) p (inl e) = subst P (sym e) p.0
  All-In P a (x ∷ xs) p (inr h) = All-In P a xs p.1 h

-- A list in the order of a relation, every item before all that follow it.
abbrev pub IsSortedBy : {A : Type 0} → (A → A → Type 0) → List A → Type 0
IsSortedBy R [] = Unit
IsSortedBy R (x ∷ xs) = All (R x) xs × IsSortedBy R xs

pub take-drop-IsSortedBy :
    {A : Type 0} (R : A → A → Type 0) (n : ℕ) (a b : A) (xs : List A)
    → IsSortedBy R xs
    → In a (take n xs)
    → In b (drop n xs)
    → R a b
take-drop-IsSortedBy R zero a b xs s h k = absurd h
take-drop-IsSortedBy R (suc n) a b [] s h k = absurd h
take-drop-IsSortedBy R (suc n) a b (x ∷ xs) s (inl e) k =
    subst (λ y. R y b) (sym e) (All-In (R x) b xs s.0 (In-drop n b xs k))
take-drop-IsSortedBy R (suc n) a b (x ∷ xs) s (inr h) k = take-drop-IsSortedBy R n a b xs s.1 h k

pub map-In : {A B : Type 0} (f : A → B) (a : A) (xs : List A) → In a xs → In (f a) (map f xs)
map-In f a [] h = absurd h
map-In f a (x ∷ xs) (inl e) = inl (ap f e)
map-In f a (x ∷ xs) (inr h) = inr (map-In f a xs h)

pub In-map :
    {A B : Type 0} (f : A → B) (b : B) (xs : List A)
    → In b (map f xs)
    → (a : A) × In a xs × (b ≡ f a)
In-map f b [] h = absurd h
In-map f b (x ∷ xs) (inl e) = (x, inl refl, e)
In-map f b (x ∷ xs) (inr h) = let (a, m, e) = In-map f b xs h in (a, inr m, e)

pub length-map : {A B : Type 0} (f : A → B) (xs : List A) → length (map f xs) ≡ length xs
length-map f [] = refl
length-map f (x ∷ xs) = ap suc (length-map f xs)

-- What holds of every member holds of all.
pub All-of_In : {A : Type 0} (P : A → Type 0) (xs : List A) → ((a : A) → In a xs → P a) → All P xs
All-of_In P [] h = tt
All-of_In P (x ∷ xs) h = (h x (inl refl), All-of_In P xs (λ a m. h a (inr m)))

-- How often a test holds in a list.
abbrev pub count : {A : Type 0} → (A → Bool) → List A → ℕ
count p [] = 0
count p (x ∷ xs) = (if p x then 1 else 0) + count p xs

pub count-snoc :
    {A : Type 0} (p : A → Bool) (xs : List A) (x : A)
    → count p (xs ++ (x ∷ [])) ≡ count p xs + (if p x then 1 else 0)
count-snoc p [] x = omega arith
count-snoc p (y ∷ xs) x = ground (arith, count-snoc p xs x)

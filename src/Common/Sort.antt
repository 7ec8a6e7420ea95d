-- ===== src/Common/Sort.antt =====
-- Python's `sorted` with a key: a stable sort, by insertion.
use kis_autotrader.Common.{
  ℕ, ◌+◌, ◌≡◌, refl, sym, ap, ◌∙◌, Bool, List, [], ◌∷◌, inl, inr, Bool-cases, arith, In, count,
  if◌then◌else◌,
}

module _ {A : Type 0} where
  abbrev pub sum_by : (A → ℕ) → List A → ℕ
  sum_by f [] = 0
  sum_by f (x ∷ xs) = f x + sum_by f xs

  count-sum : (p : A → Bool) (xs : List A) → count p xs ≡ sum_by (λ x. if p x then 1 else 0) xs
  count-sum p [] = refl
  count-sum p (x ∷ xs) = ap (λ n. (if p x then 1 else 0) + n) (count-sum p xs)

module _ {A : Type 0} (lt : A → A → Bool) where
  -- In front of the first item that is not smaller.
  unfoldable pub insert_sorted : A → List A → List A
  insert_sorted x [] = x ∷ []
  insert_sorted x (y ∷ ys) =
      let rest = insert_sorted x ys in if lt y x then y ∷ rest else x ∷ y ∷ ys

  unfoldable pub sorted : List A → List A
  unfolding insert_sorted
  sorted [] = []
  sorted (x ∷ xs) = insert_sorted x (sorted xs)

  insert_sorted-sum :
      (f : A → ℕ) (x : A) (ys : List A) → sum_by f (insert_sorted x ys) ≡ sum_by f (x ∷ ys)
  unfolding insert_sorted
  insert_sorted-sum f x [] = refl
  insert_sorted-sum f x (y ∷ ys) = elim (Bool-cases (lt y x)) [
    | inl e ↦ rw e (omega (arith, insert_sorted-sum f x ys))
    | inr e ↦ rw e refl
  ]

  -- Sorting keeps every item, as often as it is there.
  pub sorted-sum : (f : A → ℕ) (xs : List A) → sum_by f (sorted xs) ≡ sum_by f xs
  unfolding sorted
  sorted-sum f [] = refl
  sorted-sum f (x ∷ xs) = insert_sorted-sum f x (sorted xs) ∙ ap (λ n. f x + n) (sorted-sum f xs)

  pub sorted-count : (p : A → Bool) (xs : List A) → count p (sorted xs) ≡ count p xs
  sorted-count p xs =
      count-sum p (sorted xs) ∙ sorted-sum (λ x. if p x then 1 else 0) xs ∙ sym (count-sum p xs)

  insert_sorted-In : (a x : A) (ys : List A) → In a (insert_sorted x ys) → In a (x ∷ ys)
  unfolding insert_sorted
  insert_sorted-In a x [] h = h
  insert_sorted-In a x (y ∷ ys) h = elim (Bool-cases (lt y x)) [
    | inl e ↦ elim (rw e at h) [
      | inl q ↦ inr (inl q)
      | inr m ↦ elim (insert_sorted-In a x ys m) [ inl q ↦ inl q | inr n ↦ inr (inr n) ]
    ]
    | inr e ↦ rw e at h
  ]

  In-insert_sorted : (a x : A) (ys : List A) → In a (x ∷ ys) → In a (insert_sorted x ys)
  unfolding insert_sorted
  In-insert_sorted a x [] h = h
  In-insert_sorted a x (y ∷ ys) h = elim (Bool-cases (lt y x)) [
    | inl e ↦ rw e (elim h [
      | inl q ↦ inr (In-insert_sorted a x ys (inl q))
      | inr m ↦ elim m [ inl q ↦ inl q | inr n ↦ inr (In-insert_sorted a x ys (inr n)) ]
    ])
    | inr e ↦ rw e h
  ]

  pub sorted-In : (a : A) (xs : List A) → In a (sorted xs) → In a xs
  unfolding sorted
  sorted-In a [] h = h
  sorted-In a (x ∷ xs) h = elim (insert_sorted-In a x (sorted xs) h) [
    | inl q ↦ inl q
    | inr m ↦ inr (sorted-In a xs m)
  ]

  pub In-sorted : (a : A) (xs : List A) → In a xs → In a (sorted xs)
  unfolding sorted
  In-sorted a [] h = h
  In-sorted a (x ∷ xs) h =
      In-insert_sorted a x (sorted xs) (elim h [ inl q ↦ inl q | inr m ↦ inr (In-sorted a xs m) ])

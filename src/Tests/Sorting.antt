-- ===== src/Tests/Sorting.antt =====
-- An insertion sort by columns, as a database may sort.
use kis_autotrader.Common.{
  ◌≡◌, sym, subst, ap, Bool, true, false, ◌&&◌, ◌||◌, List, [], ◌∷◌, arith, inl, inr, ◌⊎◌,
  if◌then◌else◌, Bool-cases, All-In, All-of_In, In, IsSortedBy,
}
use kis_autotrader.Common.Int.{ℤ, pos_part, neg_part, ltb_ℤ, leb_ℤ, ◌≤ℤ◌, eq_of_parts}
use kis_autotrader.Worker.Queue.{Task, Column}
use kis_autotrader.Worker.Queue.Fetch.{PrecedesBy, IsOrderBy}

-- A value between two equal ones equals both.
between : (a b c : ℤ) → a ≤ℤ b → b ≤ℤ c → a ≡ c → (a ≡ b) × (b ≡ c)
between a b c h k e = (
  eq_of_parts a b (ground (arith, ap pos_part e, ap neg_part e)),
  eq_of_parts b c (ground (arith, ap pos_part e, ap neg_part e)),
)

module _ {P : Type 0} where
  abbrev before : List (Column P) → Task P → Task P → Bool
  before [] t u = true
  before (Column.desc f ∷ columns) t u =
      let rest = before columns t u in ltb_ℤ (f u) (f t) || (leb_ℤ (f u) (f t) && rest)
  before (Column.asc f ∷ columns) t u =
      let rest = before columns t u in ltb_ℤ (f t) (f u) || (leb_ℤ (f t) (f u) && rest)

  unfoldable pub insert : List (Column P) → Task P → List (Task P) → List (Task P)
  insert columns t [] = t ∷ []
  insert columns t (u ∷ us) = if before columns t u then t ∷ u ∷ us else u ∷ insert columns t us

  unfoldable pub sort : List (Column P) → List (Task P) → List (Task P)
  sort columns [] = []
  sort columns (t ∷ ts) = insert columns t (sort columns ts)

  before-PrecedesBy :
      (columns : List (Column P)) (t u : Task P)
      → before columns t u ≡ true
      → PrecedesBy columns t u
  before-PrecedesBy [] t u h = tt
  before-PrecedesBy (Column.desc f ∷ columns) t u h = (
    ground arith,
    λ e. before-PrecedesBy columns t u (ground (arith, ap pos_part e, ap neg_part e)),
  )
  before-PrecedesBy (Column.asc f ∷ columns) t u h = (
    ground arith,
    λ e. before-PrecedesBy columns t u (ground (arith, ap pos_part e, ap neg_part e)),
  )

  not_before-PrecedesBy :
      (columns : List (Column P)) (t u : Task P)
      → before columns t u ≡ false
      → PrecedesBy columns u t
  not_before-PrecedesBy [] t u h = tt
  not_before-PrecedesBy (Column.desc f ∷ columns) t u h = (
    ground arith,
    λ e. not_before-PrecedesBy columns t u (ground (arith, ap pos_part e, ap neg_part e)),
  )
  not_before-PrecedesBy (Column.asc f ∷ columns) t u h = (
    ground arith,
    λ e. not_before-PrecedesBy columns t u (ground (arith, ap pos_part e, ap neg_part e)),
  )

  PrecedesBy-trans :
      (columns : List (Column P)) (t u v : Task P)
      → PrecedesBy columns t u
      → PrecedesBy columns u v
      → PrecedesBy columns t v
  PrecedesBy-trans [] t u v h k = tt
  PrecedesBy-trans (Column.desc f ∷ columns) t u v (h, hs) (k, ks) = (
    omega arith,
    λ e.
        let (second, first) = between (f v) (f u) (f t) k h (sym e) in
        PrecedesBy-trans columns t u v (hs (sym first)) (ks (sym second)),
  )
  PrecedesBy-trans (Column.asc f ∷ columns) t u v (h, hs) (k, ks) = (
    omega arith,
    λ e.
        let (first, second) = between (f t) (f u) (f v) h k e in
        PrecedesBy-trans columns t u v (hs first) (ks second),
  )

  insert-In :
      (columns : List (Column P)) (a t : Task P) (ts : List (Task P))
      → In a (insert columns t ts)
      → (a ≡ t) ⊎ In a ts
  unfolding insert
  insert-In columns a t [] h = h
  insert-In columns a t (u ∷ us) h = elim (Bool-cases (before columns t u)) [
    | inl b ↦ rw b at h
    | inr b ↦ elim (rw b at h) [
      | inl e ↦ inr (inl e)
      | inr m ↦ elim (insert-In columns a t us m) [ inl e ↦ inl e | inr k ↦ inr (inr k) ]
    ]
  ]

  In-insert :
      (columns : List (Column P)) (a t : Task P) (ts : List (Task P))
      → (a ≡ t) ⊎ In a ts
      → In a (insert columns t ts)
  unfolding insert
  In-insert columns a t [] h = h
  In-insert columns a t (u ∷ us) h = elim (Bool-cases (before columns t u)) [
    | inl b ↦ rw b h
    | inr b ↦ rw b (elim h [
      | inl e ↦ inr (In-insert columns a t us (inl e))
      | inr m ↦ elim m [ inl e ↦ inl e | inr k ↦ inr (In-insert columns a t us (inr k)) ]
    ])
  ]

  insert-IsSortedBy :
      (columns : List (Column P)) (t : Task P) (ts : List (Task P))
      → IsSortedBy (PrecedesBy columns) ts
      → IsSortedBy (PrecedesBy columns) (insert columns t ts)
  unfolding insert
  insert-IsSortedBy columns t [] h = (tt, tt)
  insert-IsSortedBy columns t (u ∷ us) (h, hs) = elim (Bool-cases (before columns t u)) [
    | inl b ↦
        let first = before-PrecedesBy columns t u b in
        rw b (
          (
            first,
            All-of_In (PrecedesBy columns t) us (λ v m.
                PrecedesBy-trans columns t u v first (All-In (PrecedesBy columns u) v us h m)),
          ),
          (h, hs),
        )
    | inr b ↦ rw b (
      All-of_In (PrecedesBy columns u) (insert columns t us) (λ v m.
          elim (insert-In columns v t us m) [
            | inl e ↦ subst (PrecedesBy columns u) (sym e) (not_before-PrecedesBy columns t u b)
            | inr k ↦ All-In (PrecedesBy columns u) v us h k
          ]),
      insert-IsSortedBy columns t us hs,
    )
  ]

  sort_sound :
      (columns : List (Column P)) (t : Task P) (ts : List (Task P))
      → In t (sort columns ts)
      → In t ts
  unfolding sort
  sort_sound columns t [] h = h
  sort_sound columns t (u ∷ us) h = elim (insert-In columns t u (sort columns us) h) [
    | inl e ↦ inl e
    | inr m ↦ inr (sort_sound columns t us m)
  ]

  sort_complete :
      (columns : List (Column P)) (t : Task P) (ts : List (Task P))
      → In t ts
      → In t (sort columns ts)
  unfolding sort
  sort_complete columns t [] h = h
  sort_complete columns t (u ∷ us) (inl e) = In-insert columns t u (sort columns us) (inl e)
  sort_complete columns t (u ∷ us) (inr h) =
      In-insert columns t u (sort columns us) (inr (sort_complete columns t us h))

  sort_sorted :
      (columns : List (Column P)) (ts : List (Task P))
      → IsSortedBy (PrecedesBy columns) (sort columns ts)
  unfolding sort
  sort_sorted columns [] = tt
  sort_sorted columns (t ∷ ts) =
      insert-IsSortedBy columns t (sort columns ts) (sort_sorted columns ts)

  pub sort-IsOrderBy : IsOrderBy {P = P} sort
  sort-IsOrderBy = record { sound = sort_sound; complete = sort_complete; sorted = sort_sorted }

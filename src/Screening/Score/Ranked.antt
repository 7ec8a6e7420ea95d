-- ===== src/Screening/Score/Ranked.antt =====
-- The order of the ranking.
use kis_autotrader.Common.{
  ◌+◌, ◌≡◌, refl, ap, ◌∙◌, Bool, List, [], ◌∷◌, keep, count, inl, inr, Bool-cases, arith, All,
  IsSortedBy, if◌then◌else◌,
}
use kis_autotrader.Float.{Float, IsRounded, ◌≼◌}
use kis_autotrader.Float.Laws.{le_of_not_le}
use kis_autotrader.Screening.{ScreeningConfig}
use kis_autotrader.Screening.Score.{
  ScoredCandidate, insert_by_score, sort_by_score, rank_candidates,
}

module _ {F : Type 0} ⦃N : Float F⦄ (cfg : ScreeningConfig F) where
  -- The first has at least the score of the second.
  abbrev pub Outranks : ScoredCandidate F → ScoredCandidate F → Type 0
  Outranks x y = y.total_score ≼ x.total_score

  insert_by_score-count :
      (p : ScoredCandidate F → Bool) (x : ScoredCandidate F) (ys : List (ScoredCandidate F))
      → count p (insert_by_score cfg x ys) ≡ count p (x ∷ ys)
  insert_by_score-count p x [] = refl
  insert_by_score-count p x (y ∷ ys) = elim (Bool-cases (N.le y.total_score x.total_score)) [
    | inl e ↦ rw e refl
    | inr e ↦ rw e (ground (arith, insert_by_score-count p x ys))
  ]

  sort_by_score-count :
      (p : ScoredCandidate F → Bool) (xs : List (ScoredCandidate F))
      → count p (sort_by_score cfg xs) ≡ count p xs
  sort_by_score-count p [] = refl
  sort_by_score-count p (x ∷ xs) =
      insert_by_score-count p x (sort_by_score cfg xs)
      ∙ ap (λ n. (if p x then 1 else 0) + n) (sort_by_score-count p xs)

  module _ (laws : IsRounded F) where
    behind_Outranks :
        (x y : ScoredCandidate F) (ys : List (ScoredCandidate F))
        → Outranks x y
        → All (Outranks y) ys
        → All (Outranks x) ys
    behind_Outranks x y [] h a = tt
    behind_Outranks x y (z ∷ ys) h (a, rest) =
        (laws.le_trans z.total_score y.total_score x.total_score a h, behind_Outranks x y ys h rest)

    all_insert :
        (y x : ScoredCandidate F) (ys : List (ScoredCandidate F))
        → Outranks y x
        → All (Outranks y) ys
        → All (Outranks y) (insert_by_score cfg x ys)
    all_insert y x [] h a = (h, tt)
    all_insert y x (z ∷ ys) h (a, rest) = elim (Bool-cases (N.le z.total_score x.total_score)) [
      | inl e ↦ rw e (h, (a, rest))
      | inr e ↦ rw e (a, all_insert y x ys h rest)
    ]

    insert_sorted :
        (x : ScoredCandidate F) (ys : List (ScoredCandidate F))
        → IsSortedBy Outranks ys
        → IsSortedBy Outranks (insert_by_score cfg x ys)
    insert_sorted x [] s = (tt, tt)
    insert_sorted x (y ∷ ys) (a, s) = elim (Bool-cases (N.le y.total_score x.total_score)) [
      | inl e ↦ rw e ((e, behind_Outranks x y ys e a), (a, s))
      | inr e ↦ rw e (
        all_insert y x ys (le_of_not_le laws x.total_score y.total_score e) a,
        insert_sorted x ys s,
      )
    ]

    sort_sorted : (xs : List (ScoredCandidate F)) → IsSortedBy Outranks (sort_by_score cfg xs)
    sort_sorted [] = tt
    sort_sorted (x ∷ xs) = insert_sorted x (sort_by_score cfg xs) (sort_sorted xs)

    -- The ranking has the candidates that reach the lowest score asked for, each as often as it was
    -- given, and none of them stands behind one with a lower score.
    pub rank_candidates-keep :
        (candidates : List (ScoredCandidate F))
        → IsSortedBy Outranks (rank_candidates cfg candidates)
          × ((p : ScoredCandidate F → Bool)
              → count p (rank_candidates cfg candidates)
                ≡ count p (keep (λ c. N.le cfg.min_score c.total_score) candidates))
    unfolding rank_candidates
    rank_candidates-keep candidates = (
      sort_sorted (keep (λ c. N.le cfg.min_score c.total_score) candidates),
      λ p. sort_by_score-count p (keep (λ c. N.le cfg.min_score c.total_score) candidates),
    )

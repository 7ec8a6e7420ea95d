-- ===== src/Backtest/Report/Sharpe.antt =====
-- The Sharpe ratio exists: its divisions and its square roots raise no exception.
use kis_autotrader.Common.{arith, List, [], ◌∷◌, length, Bool-cases, inl, inr}
use kis_autotrader.Float.{Float, IsRounded, of_ℕ, ◌⊕◌, ◌⊖◌, ◌⊗◌, ◌≼◌, ◌≺◌}
use kis_autotrader.Float.Laws.{of_ℕ_mono, of_ℕ_pos, add_nonneg, div_nonneg, eq_zero_of_pos}
use kis_autotrader.Python.{Result, divide}
use kis_autotrader.Backtest.Report.{sum_of, daily_returns, sharpe_of, calculate_sharpe_ratio}
use kis_autotrader.Backtest.Report.Meets.{
  Meets, Any, >>=-Meets, Meets-if, divide-Any, divide_pos-Any,
}

module _ {F : Type 0} ⦃N : Float F⦄ (laws : IsRounded F) where
  daily_returns-Any : (curve : List F) → Meets Any (daily_returns curve)
  unfolding daily_returns
  daily_returns-Any [] = tt
  daily_returns-Any (prev ∷ []) = tt
  daily_returns-Any (prev ∷ equity ∷ rest) = elim (Bool-cases (N.eq prev (of_ℕ 0))) [
    | inl e ↦ rw e (daily_returns-Any (equity ∷ rest))
    | inr e ↦ rw e (>>=-Meets Any Any _ _ (daily_returns-Any (equity ∷ rest)) (λ rs _. tt))
  ]

  variance_nonneg :
      (avg acc : F) (returns : List F)
      → of_ℕ 0 ≼ acc
      → of_ℕ 0 ≼ sum_of (λ (x : F). (x ⊖ avg) ⊗ (x ⊖ avg)) acc returns
  variance_nonneg avg acc [] h = h
  variance_nonneg avg acc (r ∷ rs) h =
      variance_nonneg avg (acc ⊕ (r ⊖ avg) ⊗ (r ⊖ avg)) rs
        (add_nonneg laws acc _ h (laws.square_nonneg (r ⊖ avg)))

  divide-nonneg : (x y : F) → of_ℕ 0 ≼ x → of_ℕ 0 ≺ y → Meets (λ q. of_ℕ 0 ≼ q) (divide x y)
  divide-nonneg x y h p = rw (eq_zero_of_pos laws y p) (div_nonneg laws x y h p)

  -- The square root of a variance exists, since it is not negative.
  sharpe_of-Any :
      (sqrt : F → Result F) (returns : List F)
      → ((x : F) → of_ℕ 0 ≼ x → Meets Any (sqrt x))
      → Meets Any (sharpe_of sqrt returns)
  sharpe_of-Any sqrt [] root = tt
  sharpe_of-Any sqrt (r ∷ rs) root =
      let size = of_ℕ_pos laws (length rs) in
      >>=-Meets Any Any _ _ (divide_pos-Any laws _ _ size) (λ avg_daily _.
        >>=-Meets (λ (v : F). of_ℕ 0 ≼ v) Any _ _
          (divide-nonneg _ _ (variance_nonneg avg_daily (of_ℕ 0) (r ∷ rs) (laws.le_refl (of_ℕ 0)))
            size)
          (λ variance nonneg. >>=-Meets Any Any _ _ (root variance nonneg) (λ std_daily _.
            >>=-Meets Any Any _ _ (root (of_ℕ 252) (of_ℕ_mono laws 0 252 (omega arith)))
              (λ year _. Meets-if Any _ _ _ (λ _. tt) (λ e. divide-Any laws _ _ e)))))

  pub calculate_sharpe_ratio-Any :
      (sqrt : F → Result F) (curve : List F)
      → ((x : F) → of_ℕ 0 ≼ x → Meets Any (sqrt x))
      → Meets Any (calculate_sharpe_ratio sqrt curve)
  unfolding calculate_sharpe_ratio
  calculate_sharpe_ratio-Any sqrt curve root =
      >>=-Meets Any Any _ _ (daily_returns-Any curve) (λ returns _. sharpe_of-Any sqrt returns root)

-- ===== src/Backtest/Report/Drawdown.antt =====
-- The drawdown and the win rate are percentages.
use kis_autotrader.Common.{ℕ, ◌≤◌, arith, List, [], ◌∷◌, length, All, Bool-cases, inl, inr}
use kis_autotrader.Float.{Float, IsRounded, of_ℕ, ◌⊖◌, ◌⊗◌, ◌⊘◌, ◌≼◌, ◌≺◌, max_f}
use kis_autotrader.Float.Laws.{
  of_ℕ_mono, of_ℕ_pos, mul_nonneg, div_nonneg, div-le_one, sub_nonneg, eq_zero_of_pos, le_of_not_lt,
  le_of_lt,
}
use kis_autotrader.Backtest.Broker.{TradeRecord}
use kis_autotrader.Backtest.Report.{
  hundred, percent, next_drawdown, drawdown_loop, calculate_max_drawdown, win_rate_of,
}
use kis_autotrader.Backtest.Report.Meets.{Meets, >>=-Meets, Meets-if}

module _ {F : Type 0} ⦃N : Float F⦄ where
  pub record IsPercentage (x : F) : Type 0 where
    pub low : of_ℕ 0 ≼ x
    pub high : x ≼ of_ℕ 100

module _ {F : Type 0} ⦃N : Float F⦄ (laws : IsRounded F) where
  zero_percent : IsPercentage {F = F} (of_ℕ 0)
  zero_percent = record { low = laws.le_refl (of_ℕ 0); high = of_ℕ_mono laws 0 100 (omega arith) }

  percent-IsPercentage :
      (x y : F) → of_ℕ 0 ≼ x → of_ℕ 0 ≺ y → x ≼ y → Meets IsPercentage (percent x y)
  percent-IsPercentage x y h p k = rw (eq_zero_of_pos laws y p) (record {
    low = mul_nonneg laws (x ⊘ y) hundred (div_nonneg laws x y h p) hundred_nonneg;
    high =
        laws.le_trans (x ⊘ y ⊗ hundred) (of_ℕ 1 ⊗ hundred) hundred
          (laws.mul_mono (x ⊘ y) (of_ℕ 1) hundred hundred (div_nonneg laws x y h p)
            (div-le_one laws x y p k) hundred_nonneg (laws.le_refl hundred))
          (laws.one_mul hundred hundred_nonneg);
  })
    where
      hundred_nonneg : of_ℕ 0 ≼ hundred {F = F}
      hundred_nonneg = of_ℕ_mono laws 0 100 (omega arith)

  max-le : (x y : F) → (x ≼ max_f x y) × (y ≼ max_f x y)
  max-le x y = elim (Bool-cases (N.lt x y)) [
    | inl e ↦ rw e (le_of_lt laws x y e, laws.le_refl y)
    | inr e ↦ rw e (laws.le_refl x, le_of_not_lt laws y x e)
  ]

  max-IsPercentage : (x y : F) → IsPercentage x → IsPercentage y → IsPercentage (max_f x y)
  max-IsPercentage x y h k = elim (Bool-cases (N.lt x y)) [ inl e ↦ rw e k | inr e ↦ rw e h ]

  next_drawdown-IsPercentage :
      (peak m equity : F)
      → IsPercentage m
      → of_ℕ 0 ≼ equity
      → equity ≼ peak
      → Meets IsPercentage (next_drawdown peak m equity)
  next_drawdown-IsPercentage peak m equity h e k =
      Meets-if IsPercentage (N.lt (of_ℕ 0) peak) _ _
        (λ p.
          >>=-Meets IsPercentage IsPercentage _ _
            (percent-IsPercentage (peak ⊖ equity) peak (sub_nonneg laws peak equity k) p (
              laws.le_trans (peak ⊖ equity) (peak ⊖ of_ℕ 0) peak
                (laws.sub_mono peak peak (of_ℕ 0) equity (laws.le_refl peak) e)
                (laws.sub_zero peak)))
            (λ d. max-IsPercentage m d h))
        (λ p. h)

  drawdown_loop-IsPercentage :
      (peak m : F) (curve : List F)
      → IsPercentage m
      → All (λ (x : F). of_ℕ 0 ≼ x) curve
      → Meets IsPercentage (drawdown_loop peak m curve)
  unfolding drawdown_loop
  drawdown_loop-IsPercentage peak m [] h a = h
  drawdown_loop-IsPercentage peak m (x ∷ xs) h (k, a) =
      >>=-Meets IsPercentage IsPercentage _ _
        (next_drawdown-IsPercentage (max_f peak x) m x h k (max-le peak x).1)
        (λ d q. drawdown_loop-IsPercentage (max_f peak x) d xs q a)

  pub calculate_max_drawdown-IsPercentage :
      (curve : List F)
      → All (λ (x : F). of_ℕ 0 ≼ x) curve
      → Meets IsPercentage (calculate_max_drawdown curve)
  unfolding calculate_max_drawdown
  calculate_max_drawdown-IsPercentage [] a = zero_percent
  calculate_max_drawdown-IsPercentage (x ∷ xs) a =
      drawdown_loop-IsPercentage x (of_ℕ 0) (x ∷ xs) zero_percent a

  pub win_rate_of-IsPercentage :
      (n : ℕ) (sells : List (TradeRecord F))
      → n ≤ length sells
      → Meets IsPercentage (win_rate_of n sells)
  win_rate_of-IsPercentage n [] h = zero_percent
  win_rate_of-IsPercentage n (t ∷ ts) h =
      percent-IsPercentage (of_ℕ n) (of_ℕ (length (t ∷ ts))) (of_ℕ_mono laws 0 n (omega arith))
        (of_ℕ_pos laws (length ts)) (of_ℕ_mono laws n (length (t ∷ ts)) h)

-- ===== src/Backtest/Report/Measured.antt =====
-- The metrics of a run exist, and what they promise.
use kis_autotrader.Common.{
  ◌+◌, ◌-◌, ◌<◌, ◌≡◌, refl, arith, List, [], ◌∷◌, length, All, Bool-cases, inl, inr,
}
use kis_autotrader.Common.Int.{ℤ, pos, ◌≤ℤ◌}
use kis_autotrader.Float.{Float, IsRounded, of_ℕ, ◌⊖◌, ◌≼◌}
use kis_autotrader.Float.Laws.{of_ℕ_pos, eq_zero_of_pos}
use kis_autotrader.Python.{Result, ok}
use Prim.Native.String.{String}
use kis_autotrader.Strategy.{Signal}
use kis_autotrader.Backtest.Broker.{TradeRecord, BacktestConfig}
use kis_autotrader.Backtest.Broker.Solvent.{IsSane}
use kis_autotrader.Backtest.Engine.Days.{Answers}
use kis_autotrader.Backtest.Engine.Runs.{run_ok}
use kis_autotrader.Backtest.Engine.{Row, BacktestResult, min_window_size}
use kis_autotrader.Backtest.Report.{
  Metrics, sell_trades, profit_sells, loss_sells, total_return_of, average_rate, profit_factor_of,
  calculate_metrics, run_measured,
}
use kis_autotrader.Backtest.Report.Meets.{Meets, Any, >>=-Meets, Meets-if, Meets-ok, divide_pos-Any}
use kis_autotrader.Backtest.Report.Drawdown.{
  IsPercentage, calculate_max_drawdown-IsPercentage, win_rate_of-IsPercentage,
}
use kis_autotrader.Backtest.Report.Sharpe.{calculate_sharpe_ratio-Any}

module _ {F : Type 0} ⦃N : Float F⦄ where
  -- What the metrics of a run promise.
  pub record IsMeasured (result : BacktestResult F) (m : Metrics F) : Type 0 where
    pub drawdown : IsPercentage m.max_drawdown
    pub wins : IsPercentage m.win_rate
    pub trades : m.total_trades ≡ length result.trade_log
    pub split : m.profit_trades + m.loss_trades ≡ length (sell_trades result.trade_log)

module _ {F : Type 0} ⦃N : Float F⦄ (laws : IsRounded F) where
  total_return_of-Any : (initial final : F) → Meets Any (total_return_of initial final)
  total_return_of-Any initial final =
      Meets-if Any (N.lt (of_ℕ 0) initial) _ _
        (λ p. >>=-Meets Any Any _ _ (divide_pos-Any laws (final ⊖ initial) initial p) (λ q _. tt))
        (λ _. tt)

  average_rate-Any : (trades : List (TradeRecord F)) → Meets Any (average_rate trades)
  average_rate-Any [] = tt
  average_rate-Any (t ∷ ts) =
      divide_pos-Any laws _ (of_ℕ (length (t ∷ ts))) (of_ℕ_pos laws (length ts))

  profit_factor_of-Any : (inf profit loss : F) → Meets Any (profit_factor_of inf profit loss)
  profit_factor_of-Any inf profit loss = elim (Bool-cases (N.lt loss (of_ℕ 0))) [
    | inl e ↦ rw (e, eq_zero_of_pos laws (N.neg loss) (laws.neg_pos loss e)) tt
    | inr e ↦ rw e (Meets-if Any (N.lt (of_ℕ 0) profit) _ _ (λ _. tt) (λ _. tt))
  ]

  -- A trade is a profit or a loss, and never both.
  length-profit_sells :
      (trades : List (TradeRecord F))
      → length (profit_sells trades) + length (loss_sells trades) ≡ length trades
  length-profit_sells [] = refl
  length-profit_sells (t ∷ ts) =
      ground (arith, laws.lt-eq-not_le (of_ℕ 0) t.profit_loss, length-profit_sells ts)

  -- When no value of the equity curve is negative, `calculate_metrics` raises no exception (none of
  -- its divisions is by 0), whatever the capital and the trades are. The drawdown and the win rate
  -- it returns are between 0 and 100, every trade is counted, and each sale is counted either as a
  -- profit or as a loss.
  pub calculate_metrics-IsMeasured :
      (sqrt : F → Result F) (inf : F) (initial_capital : ℤ) (result : BacktestResult F)
      → ((x : F) → of_ℕ 0 ≼ x → Meets Any (sqrt x))
      → All (λ (x : F). of_ℕ 0 ≼ x) result.equity_curve
      → (m : Metrics F) × (calculate_metrics sqrt inf initial_capital result ≡ ok m)
        × IsMeasured result m
  unfolding calculate_metrics
  calculate_metrics-IsMeasured sqrt inf initial_capital result root a =
      let sells = sell_trades result.trade_log in
      Meets-ok (IsMeasured result) _ (
        >>=-Meets Any (IsMeasured result) _ _
          (total_return_of-Any (N.of_ℤ initial_capital) result.final_capital)
          (λ total_return _.
            >>=-Meets IsPercentage (IsMeasured result) _ _
              (calculate_max_drawdown-IsPercentage laws result.equity_curve a)
              (λ max_drawdown drawdown.
                >>=-Meets IsPercentage (IsMeasured result) _ _
                  (win_rate_of-IsPercentage laws (length (profit_sells sells)) sells
                    (omega (arith, length-profit_sells sells)))
                  (λ win_rate wins.
                    >>=-Meets Any (IsMeasured result) _ _ (average_rate-Any (profit_sells sells))
                      (λ avg_profit_rate _.
                        >>=-Meets Any (IsMeasured result) _ _ (average_rate-Any (loss_sells sells))
                          (λ avg_loss_rate _.
                            >>=-Meets Any (IsMeasured result) _ _ (profit_factor_of-Any inf _ _)
                              (λ profit_factor _.
                                >>=-Meets Any (IsMeasured result) _ _
                                  (calculate_sharpe_ratio-Any laws sqrt result.equity_curve root)
                                  (λ sharpe_ratio _. record {
                                    drawdown = drawdown;
                                    wins = wins;
                                    trades = refl;
                                    split = length-profit_sells sells;
                                  }))))))))

  -- A backtest of a strategy that raises on no window ending in a price of 1 or more, metrics
  -- included, with sane rates, a capital that is not negative,
  -- more rows than the window and no negative price, ends with a result and its metrics, when the
  -- square root of a number that is not negative exists: the final capital is not negative, the
  -- equity curve has a value for each row behind the window, the drawdown and the win rate are
  -- between 0 and 100, every trade is counted, and each sale either as a profit or as a loss.
  pub run_measured-IsMeasured :
      (sqrt : F → Result F) (inf : F) (analyze : List (Row F) → Result (Signal F)) (code : String)
      (config : BacktestConfig F) (rows : List (Row F))
      → ((x : F) → of_ℕ 0 ≼ x → Meets Any (sqrt x))
      → Answers laws analyze
      → IsSane config
      → pos 0 ≤ℤ config.initial_capital
      → min_window_size < length rows
      → All (λ (r : Row F). of_ℕ 0 ≼ r.close) rows
      → (r : BacktestResult F) × (m : Metrics F) × (run_measured sqrt inf analyze code config rows
          ≡ ok (r, m))
        × (of_ℕ 0 ≼ r.final_capital)
        × (length r.equity_curve ≡ length rows - min_window_size)
        × IsMeasured r m
  unfolding run_measured
  run_measured-IsMeasured sqrt inf analyze code config rows root answers sane capital long prices =
      let (r, e, end, n, curve) =
        run_ok laws analyze answers code config rows sane capital long prices in
      let (m, f, measured) =
        calculate_metrics-IsMeasured sqrt inf config.initial_capital r root curve in
      (r, m, rw e (rw f), end, n, measured)

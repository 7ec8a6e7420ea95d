-- ===== src/Backtest/Report.antt =====
-- src/backtest/report.py, BacktestReport.calculate_metrics. `math.sqrt` and the infinite float are
-- parameters; `x ** 2` is a product. The printed summary and the data frame are left out.
pub mod Meets
pub mod Drawdown
pub mod Sharpe
pub mod Measured
use kis_autotrader.Common.{ℕ, Bool, true, false, not, List, [], ◌∷◌, length, keep, if◌then◌else◌}
use kis_autotrader.Common.Int.{ℤ}
use kis_autotrader.Float.{Float, of_ℕ, ◌⊕◌, ◌⊖◌, ◌⊗◌, ◌⊘◌, abs_f, max_f}
use kis_autotrader.Python.{Result, ok, err, divide, ◌>>=◌}
use Prim.Native.String.{String}
use kis_autotrader.Strategy.{Signal}
use kis_autotrader.Backtest.Broker.{TradeSide, TradeRecord, BacktestConfig}
use kis_autotrader.Backtest.Engine.{Row, BacktestResult, run}

-- The fields of a result that the metrics fill.
pub record Metrics (F : Type 0) : Type 0 where
  pub total_return : F
  pub max_drawdown : F
  pub win_rate : F
  pub sharpe_ratio : F
  pub total_trades : ℕ
  pub profit_trades : ℕ
  pub loss_trades : ℕ
  pub avg_profit_rate : F
  pub avg_loss_rate : F
  pub profit_factor : F

abbrev pub is_sell_side : TradeSide → Bool
is_sell_side TradeSide.sells = true
is_sell_side TradeSide.buys = false

module _ {F : Type 0} ⦃N : Float F⦄ where
  abbrev pub sell_trades : List (TradeRecord F) → List (TradeRecord F)
  sell_trades trades = keep (λ (t : TradeRecord F). is_sell_side t.side) trades

  abbrev pub profit_sells : List (TradeRecord F) → List (TradeRecord F)
  profit_sells trades = keep (λ (t : TradeRecord F). N.lt (of_ℕ 0) t.profit_loss) trades

  abbrev pub loss_sells : List (TradeRecord F) → List (TradeRecord F)
  loss_sells trades = keep (λ (t : TradeRecord F). N.le t.profit_loss (of_ℕ 0)) trades

  -- `sum(...)`, from the left
  abbrev pub sum_from : F → List F → F
  sum_from acc [] = acc
  sum_from acc (x ∷ xs) = sum_from (acc ⊕ x) xs

  abbrev pub sum_of : {A : Type 0} → (A → F) → F → List A → F
  sum_of f acc [] = acc
  sum_of f acc (x ∷ xs) = sum_of f (acc ⊕ f x) xs

  abbrev pub hundred : F
  hundred = of_ℕ 100

  -- `(x / y) * 100`
  abbrev pub percent : F → F → Result F
  percent x y = divide x y >>= λ q. ok (q ⊗ hundred)

  abbrev pub total_return_of : F → F → Result F
  total_return_of initial final =
      if N.lt (of_ℕ 0) initial then percent (final ⊖ initial) initial else ok (of_ℕ 0)

  -- One round of the loop of `_calculate_max_drawdown`, at the new peak
  abbrev pub next_drawdown : F → F → F → Result F
  next_drawdown peak max_dd equity =
      if N.lt (of_ℕ 0) peak
      then (percent (peak ⊖ equity) peak >>= λ drawdown. ok (max_f max_dd drawdown))
      else ok max_dd

  unfoldable pub drawdown_loop : F → F → List F → Result F
  drawdown_loop peak max_dd [] = ok max_dd
  drawdown_loop peak max_dd (equity ∷ rest) =
      let peak' = max_f peak equity in
      next_drawdown peak' max_dd equity >>= λ m. drawdown_loop peak' m rest

  -- `_calculate_max_drawdown`
  unfoldable pub calculate_max_drawdown : List F → Result F
  unfolding drawdown_loop
  calculate_max_drawdown [] = ok (of_ℕ 0)
  calculate_max_drawdown (equity ∷ rest) = drawdown_loop equity (of_ℕ 0) (equity ∷ rest)

  -- The mean of rates, 0 where there is none
  abbrev pub average_rate : List (TradeRecord F) → Result F
  average_rate [] = ok (of_ℕ 0)
  average_rate (t ∷ ts) =
      divide (sum_of (λ (u : TradeRecord F). u.profit_rate) (of_ℕ 0) (t ∷ ts))
        (of_ℕ (length (t ∷ ts)))

  abbrev pub win_rate_of : ℕ → List (TradeRecord F) → Result F
  win_rate_of profits [] = ok (of_ℕ 0)
  win_rate_of profits (t ∷ ts) = percent (of_ℕ profits) (of_ℕ (length (t ∷ ts)))

  abbrev pub profit_factor_of : F → F → F → Result F
  profit_factor_of inf total_profit total_loss =
      if N.lt total_loss (of_ℕ 0)
      then divide total_profit (abs_f total_loss)
      else if N.lt (of_ℕ 0) total_profit
      then ok inf
      else ok (of_ℕ 0)

  -- The daily returns, without the days behind a capital of 0
  abbrev pub with_return : F → F → Result (List F) → Result (List F)
  with_return prev equity rest =
      if not (N.eq prev (of_ℕ 0))
      then (divide (equity ⊖ prev) prev >>= λ r. rest >>= λ rs. ok (r ∷ rs))
      else rest

  unfoldable pub daily_returns : List F → Result (List F)
  daily_returns [] = ok []
  daily_returns (prev ∷ []) = ok []
  daily_returns (prev ∷ equity ∷ rest) = with_return prev equity (daily_returns (equity ∷ rest))

module _ {F : Type 0} ⦃N : Float F⦄ (sqrt : F → Result F) where
  abbrev pub trading_days_per_year : F
  trading_days_per_year = of_ℕ 252

  abbrev pub risk_free_rate : F
  risk_free_rate = of_ℕ 35 ⊘ of_ℕ 1000

  abbrev pub ratio_of : F → F → Result F
  ratio_of annualized_return annualized_std =
      if N.eq annualized_std (of_ℕ 0)
      then ok (of_ℕ 0)
      else divide (annualized_return ⊖ risk_free_rate) annualized_std

  abbrev pub sharpe_of : List F → Result F
  sharpe_of [] = ok (of_ℕ 0)
  sharpe_of (r ∷ rs) =
      let n : F = of_ℕ (length (r ∷ rs)) in
      divide (sum_from (of_ℕ 0) (r ∷ rs)) n >>= λ avg_daily.
      divide (sum_of (λ (x : F). (x ⊖ avg_daily) ⊗ (x ⊖ avg_daily)) (of_ℕ 0) (r ∷ rs)) n
      >>= λ variance. sqrt variance >>= λ std_daily. sqrt trading_days_per_year >>= λ root.
          ratio_of (avg_daily ⊗ trading_days_per_year) (std_daily ⊗ root)

  -- `_calculate_sharpe_ratio`; with fewer than two values there is no return.
  unfoldable pub calculate_sharpe_ratio : List F → Result F
  unfolding daily_returns
  calculate_sharpe_ratio curve = daily_returns curve >>= λ returns. sharpe_of returns

  -- `inf` is `float("inf")`.
  unfoldable pub calculate_metrics : F → ℤ → BacktestResult F → Result (Metrics F)
  unfolding calculate_max_drawdown calculate_sharpe_ratio
  calculate_metrics inf initial_capital result =
      let sells = sell_trades result.trade_log in
      let profits = profit_sells sells in
      let losses = loss_sells sells in
      let total_profit = sum_of (λ (t : TradeRecord F). t.profit_loss) (of_ℕ 0) profits in
      let total_loss = sum_of (λ (t : TradeRecord F). t.profit_loss) (of_ℕ 0) losses in
      total_return_of (N.of_ℤ initial_capital) result.final_capital >>= λ total_return.
      calculate_max_drawdown result.equity_curve >>= λ max_drawdown.
      win_rate_of (length profits) sells >>= λ win_rate. average_rate profits >>= λ avg_profit_rate.
      average_rate losses >>= λ avg_loss_rate.
      profit_factor_of inf total_profit total_loss >>= λ profit_factor.
      calculate_sharpe_ratio result.equity_curve >>= λ sharpe_ratio. ok (record {
        total_return = total_return;
        max_drawdown = max_drawdown;
        win_rate = win_rate;
        sharpe_ratio = sharpe_ratio;
        total_trades = length result.trade_log;
        profit_trades = length profits;
        loss_trades = length losses;
        avg_profit_rate = avg_profit_rate;
        avg_loss_rate = avg_loss_rate;
        profit_factor = profit_factor;
      })

module _ {F : Type 0} ⦃N : Float F⦄ (sqrt : F → Result F) (inf : F)
    (analyze : List (Row F) → Result (Signal F)) (stock_code : String) where
  -- The whole backtest: `_build_result` ends in `calculate_metrics`.
  unfoldable pub run_measured :
      BacktestConfig F → List (Row F) → Result (BacktestResult F × Metrics F)
  run_measured config rows = do
    result ← run analyze stock_code config rows
    metrics ← calculate_metrics sqrt inf config.initial_capital result
    ok (result, metrics)

-- ===== src/Tests/Backtest.antt =====
-- src/backtest: a strategy that always buys, on 22 rows of one price.
use kis_autotrader.Common.{
  ℕ, zero, suc, ◌≡◌, refl, Option, none, List, [], ◌∷◌, length, arith, All, leb, ◌*◌, if◌then◌else◌,
}
use kis_autotrader.Common.Int.{pos, negsuc, ◌*ℤ◌}
use kis_autotrader.Float.{of_ℕ, ◌≼◌}
use kis_autotrader.Float.Milli.{Milli, milli_float, Milli-IsRounded}
use kis_autotrader.Python.{Result, ok, err, index_error, value_error}
use kis_autotrader.Strategy.{SignalType, Signal}
use kis_autotrader.Backtest.Broker
use kis_autotrader.Backtest.Broker.{BacktestConfig, Position, TradeRecord, VirtualBroker}
use kis_autotrader.Backtest.Broker.Solvent.{IsSane, IsSolvent, buy-IsSolvent}
use kis_autotrader.Backtest.Engine.{Row, BacktestResult, run}
use kis_autotrader.Backtest.Engine.Days.{Answers}
use kis_autotrader.Backtest.Engine.Runs.{run_errors}
use kis_autotrader.Backtest.Report.{Metrics, run_measured}
use kis_autotrader.Backtest.Report.Meets.{Meets, Any}
use kis_autotrader.Backtest.Report.Measured.{IsMeasured, run_measured-IsMeasured}

abbrev config : BacktestConfig Milli
config = record {
  initial_capital = pos 1000000;
  commission_rate = pos 1;
  slippage_rate = pos 1;
  max_position_ratio = pos 200;
  max_loss_rate = pos 30;
  take_profit_ratio = pos 50;
}

config-IsSane : IsSane config
unfolding milli_float ◌*ℤ◌
config-IsSane = record {
  commission_low = refl;
  commission_high = refl;
  slippage_low = refl;
  slippage_high = refl;
}

abbrev rows : ℕ → List (Row Milli)
rows zero = []
rows (suc n) = record { date = "2026-01-01"; close = pos 10000000 } ∷ rows n

prices : (n : ℕ) → All (λ (r : Row Milli). of_ℕ {F = Milli} 0 ≼ r.close) (rows n)
unfolding milli_float ◌*ℤ◌
prices zero = tt
prices (suc n) = (refl, prices n)

-- The strategy raises on no rows, and buys on others.
abbrev bought : Signal Milli
bought = record {
  signal_type = SignalType.buy;
  confidence = pos 700;
  target_price = none;
  stop_loss_price = none;
}

abbrev analyze : List (Row Milli) → Result (Signal Milli)
analyze [] = err value_error
analyze (row ∷ rows) = ok bought

analyze-Answers : Answers Milli-IsRounded analyze
analyze-Answers [] row h = (bought, refl)
analyze-Answers (r ∷ seen) row h = (bought, refl)

abbrev held : VirtualBroker Milli
held = record {
  config = config;
  cash = pos 500000000;
  positions =
      (
        "005930",
        record {
          stock_code = "005930";
          quantity = pos 10;
          avg_price = pos 10000000;
          entry_date = "2026-01-01";
        },
      )
      ∷ [];
  trade_history = [];
}

held-IsSolvent : IsSolvent held
unfolding milli_float ◌*ℤ◌
held-IsSolvent = record { sane = config-IsSane; no_debt = refl; held = ((omega arith, refl), tt) }

buy-IsSolvent_example :
    (r : Option (TradeRecord Milli)) × (b : VirtualBroker Milli) × (Broker.buy held "000660"
        (pos 20000000)
        "2026-01-02"
      ≡ ok (r, b))
    × IsSolvent b
unfolding milli_float ◌*ℤ◌
buy-IsSolvent_example =
    buy-IsSolvent Milli-IsRounded held "000660" (pos 20000000) "2026-01-02" held-IsSolvent refl

run_errors_example : run analyze "005930" config (rows 21) ≡ err index_error
run_errors_example = run_errors analyze "005930" config (rows 21) (omega arith)

-- The greatest k up to the bound with k * k <= n
abbrev root_from : ℕ → ℕ → ℕ
root_from zero n = zero
root_from (suc k) n =
    let smaller = root_from k n in if leb (suc k * suc k) n then suc k else smaller

abbrev sqrt : Milli → Result Milli
sqrt (pos n) = ok (pos (root_from n (1000 * n)))
sqrt (negsuc n) = err value_error

sqrt_ok : (x : Milli) → of_ℕ {F = Milli} 0 ≼ x → Meets Any (sqrt x)
unfolding milli_float ◌*ℤ◌
sqrt_ok (pos n) h = tt
sqrt_ok (negsuc n) h = absurd (ground arith)

run_measured-IsMeasured_example :
    (r : BacktestResult Milli) × (m : Metrics Milli) × (run_measured sqrt
        (pos 0)
        analyze
        "005930"
        config
        (rows 23)
      ≡ ok (r, m))
    × (of_ℕ {F = Milli} 0 ≼ r.final_capital)
    × (length r.equity_curve ≡ 2)
    × IsMeasured r m
unfolding milli_float ◌*ℤ◌
run_measured-IsMeasured_example =
    run_measured-IsMeasured Milli-IsRounded sqrt (pos 0) analyze "005930" config (rows 23) sqrt_ok
      analyze-Answers config-IsSane (omega arith) (omega arith) (prices 23)

-- ===== src/Tests/Risk.antt =====
-- src/strategy/risk.py: the portfolio's state and the gates.
use kis_autotrader.Common.{◌≡◌, refl, true, false, some, none, List, [], ◌∷◌}
use kis_autotrader.Common.Int.{pos, negsuc}
use kis_autotrader.Float.Milli.{Milli, milli_float}
use kis_autotrader.Python.{bool}
use kis_autotrader.Strategy.{SignalType, Signal}
use kis_autotrader.Risk.Manager.{Settings, RiskManager}
use kis_autotrader.Risk.Portfolio.{
  record_trades, reset_daily_risk, snapshot, restore, max_daily_loss_code,
  max_consecutive_losses_code,
}
use kis_autotrader.Risk.Portfolio.History.{Tracks, newest_first, record_trades-reset}
use kis_autotrader.Risk.Portfolio.Recovery.{restore-snapshot}
use kis_autotrader.Risk.Exits.{Time}
use kis_autotrader.Risk.Gates.{check_buy_gates}
use kis_autotrader.Risk.Gates.Verdicts.{first_breach-check_buy_gates, restore-check_buy_gates}

abbrev pub limits : Settings Milli
limits = record {
  max_loss_rate = pos 30;
  max_position_ratio = pos 200;
  daily_trade_limit = pos 20;
  take_profit_ratio = pos 50;
  trailing_activation_ratio = pos 30;
  trailing_drawdown_ratio = pos 20;
  breakeven_activation_ratio = pos 20;
  stagnation_hours = pos 4000;
  min_profitable_close = pos 5;
  market_close_loss_cut_rate = pos 10;
  min_confidence = pos 300;
  max_daily_drawdown = pos 500;
  max_consecutive_losses = pos 3;
  max_daily_loss_abs = pos 100000;
  market_close_cutoff_hour = 15;
  market_close_cutoff_minute = 0;
}

abbrev pub manager : RiskManager Milli
manager = record {
  limits = limits;
  daily_peak_pnl = pos 0;
  daily_cumulative_pnl = pos 0;
  consecutive_losses = pos 0;
  portfolio_halted = false;
  halt_reason = none;
}

abbrev halted : RiskManager Milli
halted = record manager { portfolio_halted = true; halt_reason = some max_daily_loss_code }

abbrev pub morning : Time
morning = record { hour = 10; minute = 0 }

abbrev pub afternoon : Time
afternoon = record { hour = 15; minute = 10 }

abbrev pub buy_signal : Signal Milli
buy_signal = record {
  signal_type = SignalType.buy;
  confidence = pos 700;
  target_price = none;
  stop_loss_price = none;
}

-- A gain of 20, then three losses of 5: the third breaks the run's limit.
abbrev day : List Milli
day = pos 20000 ∷ negsuc 4999 ∷ negsuc 4999 ∷ negsuc 4999 ∷ []

record_trades-reset_example :
    Tracks (record_trades day (reset_daily_risk halted)) (newest_first day [])
    × ((record_trades day (reset_daily_risk halted)).limits ≡ limits)
record_trades-reset_example = record_trades-reset day halted

first_breach-check_buy_gates_example :
    check_buy_gates (record_trades day (reset_daily_risk halted)) morning buy_signal (pos 0)
    ≡ some max_consecutive_losses_code
unfolding milli_float
first_breach-check_buy_gates_example =
    first_breach-check_buy_gates halted day morning buy_signal (pos 0) refl refl

restore-snapshot_example : restore (snapshot halted) manager ≡ halted
restore-snapshot_example = restore-snapshot halted manager refl

restore-check_buy_gates_example :
    check_buy_gates
      (restore (("portfolio_halted", bool true) ∷ []) halted)
      morning
      buy_signal
      (pos 0)
    ≡ some max_consecutive_losses_code
restore-check_buy_gates_example =
    restore-check_buy_gates halted (("portfolio_halted", bool true) ∷ []) morning buy_signal (pos 0)
      refl refl refl

-- ===== src/Backtest/Engine.antt =====
-- src/backtest/engine.py, BacktestEngine. A strategy is its `analyze` on the rows so
-- far, which may raise; the
-- names and the capital that the result repeats are left out, and its metrics are in Report.
pub mod Days
pub mod Runs
use Prim.Native.String.{String}
use text.Mathlib.Text.{◌==◌ as str_eq}
use kis_autotrader.Common.{
  ℕ, ◌≡◌, Bool, true, false, ◌&&◌, Option, none, some, List, [], ◌∷◌, ◌++◌, ltb, if◌then◌else◌,
  length, take, drop,
}
use kis_autotrader.Common.Int.{ℤ, pos, leb_ℤ}
use kis_autotrader.Float.{Float, of_ℕ, ◌⊘◌}
use kis_autotrader.Python.{Result, ok, err, value_error, index_error, ◌>>=◌, is_some}
use kis_autotrader.Strategy.{SignalType, buy, sell, hold, Signal}
use kis_autotrader.Backtest.Broker
use kis_autotrader.Common.Dict.{lookup}
use kis_autotrader.Backtest.Broker.{
  BacktestConfig, TradeRecord, VirtualBroker, check_stop_loss, check_take_profit, portfolio_value,
}

abbrev pub min_window_size : ℕ
min_window_size = 21

pub record Row (F : Type 0) : Type 0 where
  pub date : String
  pub close : F

pub record BacktestResult (F : Type 0) : Type 0 where
  pub start_date : String
  pub end_date : String
  pub final_capital : F
  pub equity_curve : List F
  pub trade_log : List (TradeRecord F)

abbrev pub is_buy : SignalType → Bool
is_buy SignalType.buy = true
is_buy _ = false

abbrev pub is_sell : SignalType → Bool
is_sell SignalType.sell = true
is_sell _ = false

-- `data.iloc[i]` for an index that is not negative, and `data.iloc[-1]`
abbrev pub nth : {A : Type 0} → ℕ → List A → Result A
nth i xs = elim (drop i xs) [ [] ↦ err index_error | x ∷ _ ↦ ok x ]

abbrev pub last : {A : Type 0} → List A → Result A
last [] = err index_error
last (x ∷ []) = ok x
last (x ∷ y ∷ ys) = last (y ∷ ys)

-- `xs[-1] = x` on a list that is not empty
abbrev pub set_last : {A : Type 0} → A → List A → List A
set_last v [] = []
set_last v (x ∷ []) = v ∷ []
set_last v (x ∷ y ∷ ys) = x ∷ set_last v (y ∷ ys)

module _ {F : Type 0} ⦃N : Float F⦄ where
  -- The literal 0.1.
  abbrev pub min_confidence : F
  min_confidence = of_ℕ 1 ⊘ of_ℕ 10

  abbrev pub confident : Signal F → Bool
  confident s = N.le min_confidence s.confidence

  -- The broker after an order; the trade is in its history.
  abbrev pub broker_of :
      Result (Option (TradeRecord F) × VirtualBroker F) → Result (VirtualBroker F)
  broker_of r = r >>= λ t. ok t.1

  -- The sale of a held stock: stop loss, then profit, then the strategy's signal.
  abbrev pub process_held :
      VirtualBroker F → Signal F → String → F → String → Result (VirtualBroker F)
  process_held b signal stock_code price date = check_stop_loss b stock_code price >>= λ stop.
      if stop
      then broker_of (Broker.sell b stock_code price date)
      else (check_take_profit b stock_code price >>= λ take_profit.
          if take_profit
          then broker_of (Broker.sell b stock_code price date)
          else if is_sell signal.signal_type && confident signal
          then broker_of (Broker.sell b stock_code price date)
          else ok b)

  -- The trades of a day, by the signal of the strategy
  unfoldable pub process_signal :
      VirtualBroker F → Signal F → String → F → String → Result (VirtualBroker F)
  process_signal b signal stock_code price date =
      if is_some (lookup stock_code b.positions)
      then process_held b signal stock_code price date
      else if is_buy signal.signal_type && confident signal
      then broker_of (Broker.buy b stock_code price date)
      else ok b

  -- `_process_day`, with what the strategy's `analyze` returns for the window; nothing catches an
  -- exception of it.
  abbrev pub process_day :
      VirtualBroker F → Result (Signal F) → String → F → String → Result (VirtualBroker F)
  process_day b analyzed stock_code price date =
      analyzed >>= λ signal. process_signal b signal stock_code price date

  module _ (analyze : List (Row F) → Result (Signal F)) (stock_code : String) where
    -- The price of a row as an int, `int(row["close"])`, and one round of the loop.
    abbrev pub day : List (Row F) → Row F → VirtualBroker F → Result (VirtualBroker F)
    day window row b =
        let current_price = N.to_int row.close in
        if leb_ℤ current_price (pos 0)
        then ok b
        else process_day b (analyze window) stock_code (N.of_ℤ current_price) row.date

    -- The loop over the rows from the window's end on, with the equity after each.
    pub days : List (Row F) → List (Row F) → VirtualBroker F → Result (List F × VirtualBroker F)
    days seen [] b = ok ([], b)
    days seen (row ∷ rows) b =
        let window = seen ++ (row ∷ []) in
        day window row b >>= λ b'. days window rows b' >>= λ later.
        ok (portfolio_value b' ((stock_code, N.of_ℤ (N.to_int row.close)) ∷ []) ∷ later.0, later.1)

    -- The forced sale at the end, and the equity corrected.
    abbrev pub close_out : Row F → List F → VirtualBroker F → Result (List F × VirtualBroker F)
    close_out end curve b =
        if is_some (lookup stock_code b.positions)
        then (broker_of (Broker.sell b stock_code end.close end.date) >>= λ b'.
            ok (set_last (portfolio_value b' ((stock_code, end.close) ∷ [])) curve, b'))
        else ok (curve, b)

    -- `_build_result`
    unfoldable pub build_result :
        List (Row F) → List F → VirtualBroker F → Result (BacktestResult F)
    unfolding lookup
    build_result rows curve b = do
      end ← last rows
      (curve', b') ← close_out end curve b
      first ← nth min_window_size rows
      ok (record {
        start_date = first.date;
        end_date = end.date;
        final_capital = b'.cash;
        equity_curve = curve';
        trade_log = b'.trade_history;
      })

    -- `BacktestEngine.run`, with a new broker
    unfoldable pub run : BacktestConfig F → List (Row F) → Result (BacktestResult F)
    unfolding Broker.init days
    run config rows =
        if ltb (length rows) min_window_size
        then err value_error
        else (days (take min_window_size rows) (drop min_window_size rows) (Broker.init config)
            >>= λ end. build_result rows end.0 end.1)

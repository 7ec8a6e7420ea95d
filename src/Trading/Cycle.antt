-- ===== src/Trading/Cycle.antt =====
-- src/engine.py: a trading cycle, the reset before the market, and the recovery after a restart.
pub mod Guards
use Prim.Native.String.{String}
use text.Mathlib.Text.{◌==◌ as str_eq}
use kis_autotrader.Common.{
  ℕ, zero, suc, ◌+◌, ◌%◌, ◌==◌, Bool, true, false, not, ◌&&◌, Option, none, some, List, [], ◌∷◌,
  length, keep, if◌then◌else◌,
}
use kis_autotrader.Common.Dict.{lookup, put}
use kis_autotrader.Common.Int.{ℤ, pos, ltb_ℤ}
use kis_autotrader.Float.{Float, of_ℕ}
use kis_autotrader.Python.{Error, daily_limit_exceeded, Result, ok, err, is_some}
use kis_autotrader.Risk.Portfolio.{record_trades, reset_daily_risk}
use kis_autotrader.Risk.Gates.{check_daily_trade_limit}
use kis_autotrader.Trading.{Side, Trade, Config, Clock, TradingEngine, outcome, emit, count_buy}
use kis_autotrader.Trading.Orders.{cleanup_stale_pending_orders, cancel_all_pending_orders}
use kis_autotrader.Trading.Execution.{add}
use kis_autotrader.Trading.Held.{Holding}
use kis_autotrader.Trading.Stock.{StockData, process_stock}

module _ {F : Type 0} ⦃N : Float F⦄ where
  -- `pre_market`, which starts a new day. `peaks` is what `_load_peak_prices` reads, and `screened`
  -- the codes that `_screen_stocks` selects at the end, none where a call before or in it raises.
  unfoldable pub pre_market : List (String × F) → List String → TradingEngine F → TradingEngine F
  pre_market peaks screened t = record t {
    today_trade_count = 0;
    today_buys_per_stock = [];
    untradable_today = [];
    cycle_count = 0;
    daily_limit_reached = false;
    risk = reset_daily_risk t.risk;
    screened_codes = screened;
    peak_prices = peaks;
    pending_orders = [];
    last_sell_at = [];
    loss_sell_dates = [];
    held_since = [];
    risk_state_restored = true;
    events = [];
  }

  -- `sells.sort(key=lambda t: t.traded_at)`, which keeps the order of equal times
  abbrev pub insert_by_time : Trade F → List (Trade F) → List (Trade F)
  insert_by_time x [] = x ∷ []
  insert_by_time x (y ∷ ys) =
      let later = insert_by_time x ys in
      if N.le x.traded_at y.traded_at then x ∷ y ∷ ys else y ∷ later

  abbrev pub sort_by_time : List (Trade F) → List (Trade F)
  sort_by_time [] = []
  sort_by_time (x ∷ xs) = insert_by_time x (sort_by_time xs)

  abbrev pub is_realised_sell : Trade F → Bool
  is_realised_sell r = elim r.trade_type [
    | Side.buys ↦ false
    | Side.sells ↦ is_some r.profit_loss_amount
  ]

  -- One row of the loop that rebuilds the counters per stock.
  unfoldable pub restore_row : ℕ → Trade F → TradingEngine F → TradingEngine F
  restore_row today r t = elim r.trade_type [
    | Side.buys ↦ count_buy r.stock_code t
    | Side.sells ↦ record t {
      last_sell_at = elim (lookup r.stock_code t.last_sell_at) [
        | none ↦ put r.stock_code r.traded_at t.last_sell_at
        | some prev ↦
            if N.lt prev r.traded_at
            then put r.stock_code r.traded_at t.last_sell_at
            else t.last_sell_at
      ];
      loss_sell_dates = elim r.profit_loss_amount [
        | none ↦ t.loss_sell_dates
        | some amount ↦
            if N.lt amount (of_ℕ 0)
            then put r.stock_code today t.loss_sell_dates
            else t.loss_sell_dates
      ];
    }
  ]

  unfoldable pub restore_rows : ℕ → List (Trade F) → TradingEngine F → TradingEngine F
  restore_rows today [] t = t
  restore_rows today (r ∷ rs) t = restore_rows today rs (restore_row today r t)

  abbrev pub counters_cleared : TradingEngine F → TradingEngine F
  counters_cleared t = record t {
    today_buys_per_stock = [];
    last_sell_at = [];
    loss_sell_dates = [];
  }

  module _ (cfg : Config F) where
    -- The result that is replayed: whole in the domestic market.
    abbrev pub replayed : Option F → F
    replayed none = of_ℕ 0
    replayed (some amount) = if cfg.is_overseas then amount else N.of_ℤ (N.to_int amount)

    abbrev pub replay_amounts : List (Trade F) → List F
    replay_amounts [] = []
    replay_amounts (r ∷ rs) = replayed r.profit_loss_amount ∷ replay_amounts rs

    abbrev pub replay_sells :
        List (String × F) → ℕ → List (Trade F) → TradingEngine F → TradingEngine F
    replay_sells peaks trade_count [] t = t
    replay_sells peaks trade_count (s ∷ sells) t = record t {
      risk = record_trades (replay_amounts (sort_by_time (s ∷ sells))) (reset_daily_risk t.risk);
      today_trade_count = trade_count;
      peak_prices = peaks;
    }

    -- `_restore_risk_state_if_needed`, with the day's rows of `trades` that the database returns
    unfoldable pub restore_risk_state :
        ℕ → List (String × F) → Result (List (Trade F)) → TradingEngine F → TradingEngine F
    restore_risk_state today peaks rows t = if t.risk_state_restored then t else elim rows [
      | err e ↦ record t { risk_state_restored = true }
      | ok trades ↦
          replay_sells peaks (length trades) (keep is_realised_sell trades)
            (restore_rows today trades (counters_cleared (record t { risk_state_restored = true })))
    ]

-- The clauses of a `try`: the value, the daily limit of the API, any other exception.
abbrev pub on_result : {A B : Type 0} → Result A → (A → B) → B → B → B
on_result (ok x) value limit other = value x
on_result (err Error.daily_limit_exceeded) value limit other = limit
on_result (err _) value limit other = other

-- Why a cycle ended.
pub data Exit : Type 0 where
  kill_switch daily_limit portfolio_halted : Exit
  circuit_breaker_open api_limit_screening api_limit_balance : Exit
  balance_error api_limit_processing completed screening_error : Exit

-- What the calls of one cycle return. `holding` is `_find_holding_from_balance`.
pub record CycleData (F : Type 0) : Type 0 where
  pub halt_file : Bool
  pub trades_today : Result (List (Trade F))
  pub saved_peaks : List (String × F)
  pub breaker_open : Bool
  pub stale_held : String → Option ℤ
  pub screening : List String → Result (List String)
  pub balance : Result F
  pub held_codes : List String
  pub holding : String → Option (Holding F)
  pub watchlist : List String
  pub sorted : List String → List String
  pub stock_breaker_open : String → Bool
  pub stock : String → StockData F

-- `_build_monitor_targets`: the codes in the order of their first mention
abbrev pub add_all : List String → List String → List String
add_all [] seen = seen
add_all (c ∷ cs) seen = add_all cs (add c seen)

module _ {F : Type 0} ⦃N : Float F⦄ (cfg : Config F) (clock : Clock F) (d : CycleData F) where
  abbrev pub build_monitor_targets : TradingEngine F → List String
  build_monitor_targets t = add_all t.screened_codes (add_all d.watchlist (add_all d.held_codes []))

  -- The loop over the targets: an error of one stock skips it, the daily limit of the API ends the
  -- cycle.
  unfoldable pub process_targets : F → List String → TradingEngine F → Exit × TradingEngine F
  process_targets deposit [] t = (Exit.completed, t)
  process_targets deposit (code ∷ codes) t =
      if d.stock_breaker_open code
      then (Exit.circuit_breaker_open, t)
      else on_result (process_stock cfg clock (d.stock code) code deposit (d.holding code) t)
          (λ t'. process_targets deposit codes t')
          (Exit.api_limit_processing, record t { daily_limit_reached = true })
          (process_targets deposit codes t)

  -- From the balance on
  abbrev pub evaluate_targets : Bool → TradingEngine F → Exit × TradingEngine F
  evaluate_targets buy_limit_reached t =
      on_result d.balance
        (λ deposit.
          process_targets deposit
            (if buy_limit_reached then d.sorted d.held_codes else build_monitor_targets t) t)
        (Exit.api_limit_balance, record t { daily_limit_reached = true }) (Exit.balance_error, t)

  -- The screening of every `interval_cycles`-th cycle
  abbrev pub screen_stocks : Bool → TradingEngine F → Exit × TradingEngine F
  screen_stocks due t =
      if due
      then on_result (d.screening t.screened_codes)
          (λ codes. evaluate_targets false (record t { screened_codes = codes }))
          (Exit.api_limit_screening, record t { daily_limit_reached = true })
          (Exit.screening_error, t)
      else evaluate_targets (check_daily_trade_limit t.risk (pos t.today_trade_count)) t

  -- The body of the `try`, behind the circuit breaker
  abbrev pub trade : TradingEngine F → Exit × TradingEngine F
  trade t =
      let t' = cleanup_stale_pending_orders cfg clock d.stale_held t in
      let buy_limit_reached = check_daily_trade_limit t'.risk (pos t'.today_trade_count) in
      screen_stocks (not buy_limit_reached && (t'.cycle_count % cfg.interval_cycles == 0)) t'

  -- The guards behind the kill switch and the recovery
  abbrev pub guarded : TradingEngine F → Exit × TradingEngine F
  guarded t =
      if t.daily_limit_reached
      then (Exit.daily_limit, t)
      else if t.risk.portfolio_halted
      then (Exit.portfolio_halted, t)
      else if d.breaker_open
      then (Exit.circuit_breaker_open, t)
      else trade t

  abbrev pub count_cycle : TradingEngine F → TradingEngine F
  count_cycle t = record t { cycle_count = suc t.cycle_count }

  -- `run_trading_cycle`
  unfoldable pub run_trading_cycle : TradingEngine F → Exit × TradingEngine F
  run_trading_cycle t =
      if d.halt_file
      then (Exit.kill_switch, count_cycle t)
      else guarded (restore_risk_state cfg clock.date d.saved_peaks d.trades_today (count_cycle t))

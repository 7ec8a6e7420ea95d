-- ===== src/Tests/Trading.antt =====
-- src/engine.py: a day with a stock that is bought and one that falls.
use Prim.Native.String.{String}
use text.Mathlib.Text.{◌==◌ as str_eq}
use kis_autotrader.Common.{
  count, ℕ, ◌==◌, ◌≡◌, ◌≢◌, refl, true, false, Option, some, none, List, [], ◌∷◌, length, keep, ap,
  arith, if◌then◌else◌,
}
use kis_autotrader.Common.Dict.{lookup, put, remove}
use kis_autotrader.Common.Dict.Keys.{HasUniqueKeys}
use kis_autotrader.Common.Int.{ℤ, pos, ◌*ℤ◌, ◌-ℤ◌, ◌+ℤ◌}
use kis_autotrader.Float.Milli.{Milli, milli_float}
use kis_autotrader.Python.{ok}
use kis_autotrader.Risk.Portfolio.{record_trade_result, reset_daily_risk}
use kis_autotrader.Risk.Exits.{should_stop_loss}
use kis_autotrader.Risk.Gates.{check_daily_trade_limit, check_buy_gates}
use kis_autotrader.Trading.{Side, PendingOrder, Trade, Config, Clock, TradingEngine, buys_of}
use kis_autotrader.Trading.Orders.{
  cleanup_stale_pending_orders, cancel_all_pending_orders, confirm_fill, cancel_each,
  suppress_or_replace_pending, record_trade, reconcile_sell_reason,
}
use kis_autotrader.Trading.Orders.Confirmed.{IsConfirmed, confirm_fill-IsConfirmed}
use kis_autotrader.Trading.Execution.{Placement, Answers, execute_sell}
use kis_autotrader.Trading.Held.{process_held_stock, exit_reason, Holding}
use kis_autotrader.Trading.Stock.{StockData, process_stock, reject_reason, process_buy}
use kis_autotrader.Trading.Stock.Gates.{IsGated, process_stock-IsGated}
use kis_autotrader.Trading.Cycle.{
  process_targets, CycleData, pre_market, run_trading_cycle, restore_risk_state, is_realised_sell,
}
use kis_autotrader.Trading.Cycle.Guards.{run_cycles, run_cycles-halted}
use kis_autotrader.Trading.Calls.Cleared.{lookup-cleanup_stale_pending_orders}
use kis_autotrader.Trading.Calls.Stocks.{Yields}
use kis_autotrader.Trading.Ledger.{ledger}
use kis_autotrader.Trading.Ledger.Orders.{is_submission, is_settlement}
use kis_autotrader.Trading.Ledger.Booked.{IsBooked}
use kis_autotrader.Trading.Ledger.Standing.{IsAccounted}
use kis_autotrader.Trading.Ledger.Days.{
  Reaches, start, cycle, Reaches-IsAccounted, Reaches-IsBooked,
  cancel_all_pending_orders-is_settlement,
}
use kis_autotrader.Trading.Ledger.Restart.{AreInTime, AreReplayed, restore_risk_state-Reaches}
use kis_autotrader.Tests.Risk.{manager, morning, buy_signal}

abbrev config : Config Milli
config = record {
  is_overseas = false;
  price_precision = 0;
  quantize = λ n x. x;
  min_price = pos 0;
  order_pending_timeout_cycles = 3;
  reconcile_orphan_fills = true;
  db_precheck_before_order = false;
  trailing_stop_enabled = false;
  max_daily_trades_per_stock = 2;
  buy_cooldown_after_sell_min = pos 0;
  loss_rebuy_block_same_day = true;
  interval_cycles = 6;
}

abbrev clock : Clock Milli
clock = record { now = pos 36000000; date = 739000; time = morning }

abbrev engine : TradingEngine Milli
engine = record {
  risk = manager;
  today_trade_count = 0;
  today_buys_per_stock = [];
  untradable_today = [];
  cycle_count = 0;
  daily_limit_reached = false;
  screened_codes = [];
  peak_prices = [];
  pending_orders = [];
  last_sell_at = [];
  loss_sell_dates = [];
  held_since = [];
  risk_state_restored = false;
  events = [];
}

-- Orders are accepted; the first poll shows a holding of 4.
abbrev answers : Answers
answers = record {
  market_action_block = false;
  disclosure_block = false;
  db_healthcheck = true;
  orphan = none;
  held_before = none;
  placement = Placement.accepted "0001";
  poll = λ n. some (pos 4);
}

abbrev stock : String → StockData Milli
stock code = record {
  stock_name = code;
  daily = ok true;
  quote = ok (pos 9500000);
  signal = ok buy_signal;
  signal_word = none;
  buyable = some (pos 10);
  answers = answers;
}

-- 005930 was bought at 10000 and has fallen to 9500; 000660 is not held.
abbrev cycle_data : CycleData Milli
cycle_data = record {
  halt_file = false;
  trades_today = ok [];
  saved_peaks = [];
  breaker_open = false;
  stale_held = λ code. none;
  screening = λ codes. ok codes;
  balance = ok (pos 500000000);
  held_codes = "005930" ∷ [];
  holding = λ code.
      if str_eq code "005930"
      then some (record { quantity = pos 10; avg_price = pos 10000000 })
      else none;
  watchlist = "000660" ∷ [];
  sorted = λ codes. codes;
  stock_breaker_open = λ code. false;
  stock = stock;
}

abbrev traded : TradingEngine Milli
traded = (run_trading_cycle config clock cycle_data (pre_market [] ("005930" ∷ []) engine)).1

abbrev traded-Reaches : Reaches config (pre_market [] ("005930" ∷ []) engine) traded
traded-Reaches = cycle clock cycle_data (pre_market [] ("005930" ∷ []) engine) start

Reaches-IsAccounted_example : IsAccounted traded × HasUniqueKeys traded.pending_orders
Reaches-IsAccounted_example = Reaches-IsAccounted [] ("005930" ∷ []) engine traded traded-Reaches

Reaches-IsBooked_example : IsBooked (reset_daily_risk engine.risk) traded
Reaches-IsBooked_example = Reaches-IsBooked [] ("005930" ∷ []) engine traded traded-Reaches

abbrev sold : List (Trade Milli)
sold = keep is_realised_sell (ledger traded.events)

nonempty : {A : Type 0} (x : A) (xs : List A) → x ∷ xs ≢ []
nonempty x xs h = absurd (omega (arith, ap length h))

sold_facts : (sold ≢ []) × AreInTime sold × AreReplayed config sold
unfolding run_trading_cycle restore_risk_state process_targets cleanup_stale_pending_orders
    cancel_each process_stock process_held_stock exit_reason execute_sell
    suppress_or_replace_pending confirm_fill record_trade reconcile_sell_reason lookup put remove
    pre_market reset_daily_risk record_trade_result should_stop_loss check_daily_trade_limit
    reject_reason process_buy milli_float ◌*ℤ◌ ◌-ℤ◌ ◌+ℤ◌ check_buy_gates
sold_facts = (nonempty _ _, (tt, tt), (refl, tt))

restore_risk_state-Reaches_example :
    let restarted = restore_risk_state config 739000 [] (ok (ledger traded.events)) engine in
    (restarted.risk ≡ traded.risk)
    × (restarted.today_trade_count ≡ traded.today_trade_count)
    × ((code : String) → buys_of code restarted ≡ buys_of code traded)
restore_risk_state-Reaches_example =
    restore_risk_state-Reaches config [] ("005930" ∷ []) [] 739000 engine traded engine
      traded-Reaches refl refl sold_facts.0 sold_facts.1 sold_facts.2

cancel_all_pending_orders-is_settlement_example :
    let closed = cancel_all_pending_orders config clock (λ code. none) traded in
    count (is_submission "005930") closed.events ≡ count (is_settlement "005930") closed.events
cancel_all_pending_orders-is_settlement_example =
    cancel_all_pending_orders-is_settlement [] ("005930" ∷ []) clock (λ code. none) engine traded
      "005930" traded-Reaches

abbrev waiting : PendingOrder Milli
waiting = record {
  order_no = "0002";
  side = Side.buys;
  quantity = pos 5;
  placed_cycle = 2;
  stock_name = "000660";
  qty_before = pos 0;
  price = pos 9500000;
  avg_price = none;
  signal_type = none;
}

abbrev late : TradingEngine Milli
late = record engine {
  pending_orders = ("000660", waiting) ∷ [];
  cycle_count = 5;
  risk_state_restored = true;
}

lookup-cleanup_stale_pending_orders_example :
    lookup "000660" (cleanup_stale_pending_orders config clock (λ code. none) late).pending_orders
    ≡ none
unfolding lookup
lookup-cleanup_stale_pending_orders_example =
    lookup-cleanup_stale_pending_orders config clock (λ code. none) "000660" waiting late (refl, tt)
      refl

process_stock-IsGated_example :
    Yields
      (IsGated config clock (stock "000660") "000660" (pos 500000000) late)
      (process_stock config clock (stock "000660") "000660" (pos 500000000) none late)
process_stock-IsGated_example =
    process_stock-IsGated config clock (stock "000660") "000660" (pos 500000000) late

abbrev halted : TradingEngine Milli
halted = record late { risk = record manager { portfolio_halted = true } }

run_cycles-halted_example :
    run_cycles config ((clock, cycle_data) ∷ (clock, cycle_data) ∷ []) halted
    ≡ record halted { cycle_count = 7 }
run_cycles-halted_example =
    run_cycles-halted config ((clock, cycle_data) ∷ (clock, cycle_data) ∷ []) halted refl refl

abbrev polls : ℕ → Option ℤ
polls n = if n == 0 then some (pos 9) else if n == 1 then none else some (pos 4)

confirm_fill-IsConfirmed_example :
    IsConfirmed Side.buys (pos 4) polls 3 (confirm_fill Side.buys (pos 4) polls 3)
confirm_fill-IsConfirmed_example = confirm_fill-IsConfirmed Side.buys (pos 4) polls 3

abbrev fallen : Holding Milli
fallen = record { quantity = pos 10; avg_price = pos 10000000 }

-- ===== src/Trading/Stock.antt =====
-- src/engine.py, `_process_stock`: from the data of a stock to an order. The data of the stock and
-- the answers to its order are an argument; the signals' records and counters are left out.
pub mod Gates
use Prim.Native.String.{String}
use text.Mathlib.Text.{◌==◌ as str_eq}
use kis_autotrader.Common.{
  ℕ, Bool, true, false, not, ◌&&◌, ◌||◌, ◌==◌, leb, Option, none, some, List, [], ◌∷◌,
  if◌then◌else◌,
}
use kis_autotrader.Common.Dict.{lookup}
use kis_autotrader.Common.Int.{ℤ, pos, ltb_ℤ, leb_ℤ}
use kis_autotrader.Float.{Float, of_ℕ, ◌⊖◌, ◌⊘◌}
use kis_autotrader.Python.{Error, Result, ok, err, ◌>>=◌}
use kis_autotrader.Strategy.{SignalType, Signal}
use kis_autotrader.Risk.Gates.{check_daily_trade_limit, check_buy_gates, calculate_position_size}
use kis_autotrader.Trading.{Config, Clock, TradingEngine, outcome, emit, buys_of}
use kis_autotrader.Trading.Execution.{Answers, execute_buy}
use kis_autotrader.Trading.Held.{Holding, process_held_stock}

-- What the calls for one stock return: whether there are daily bars, the quote, the strategy's
-- signal with the first word of its reason, the quantity that can be bought, and the answers to an
-- order. A call that raises is an error.
pub record StockData (F : Type 0) : Type 0 where
  pub stock_name : String
  pub daily : Result Bool
  pub quote : Result F
  pub signal : Result (Signal F)
  pub signal_word : Option String
  pub buyable : Option ℤ
  pub answers : Answers

abbrev pub signal_case : {A : Type 0} → SignalType → A → A → A → A
signal_case SignalType.buy b s h = b
signal_case SignalType.sell b s h = s
signal_case SignalType.hold b s h = h

-- `min(quantity, buyable)`
abbrev pub min_ℤ : ℤ → ℤ → ℤ
min_ℤ a b = if ltb_ℤ b a then b else a

module _ {F : Type 0} ⦃N : Float F⦄ where
  -- The signal that a stock without daily bars is evaluated with.
  abbrev pub hold_signal : Signal F
  hold_signal = record {
    signal_type = SignalType.hold;
    confidence = of_ℕ 0;
    target_price = none;
    stop_loss_price = none;
  }

  module _ (cfg : Config F) (clock : Clock F) where
    -- The last sell was less than the cooldown ago.
    abbrev pub in_cooldown : String → TradingEngine F → Bool
    in_cooldown code t = elim (lookup code t.last_sell_at) [
      | none ↦ false
      | some sold ↦
          N.lt (of_ℕ 0) cfg.buy_cooldown_after_sell_min
          && N.lt ((clock.now ⊖ sold) ⊘ of_ℕ 60) cfg.buy_cooldown_after_sell_min
    ]

    -- The stock was sold at a loss today.
    abbrev pub loss_blocked : String → TradingEngine F → Bool
    loss_blocked code t = elim (lookup code t.loss_sell_dates) [
      | none ↦ false
      | some day ↦ cfg.loss_rebuy_block_same_day && (day == clock.date)
    ]

    -- The reason of `_record_buy_reject` that a BUY signal is refused with before it is sized.
    unfoldable pub reject_reason : String → Signal F → F → TradingEngine F → Option String
    reject_reason code signal deposit t =
        if check_daily_trade_limit t.risk (pos t.today_trade_count)
        then some "DAILY_TRADE_LIMIT"
        else if leb cfg.max_daily_trades_per_stock (buys_of code t)
        then some "DAILY_TRADE_LIMIT_PER_STOCK"
        else if in_cooldown code t
        then some "REBUY_COOLDOWN"
        else if loss_blocked code t
        then some "LOSS_REBUY_BLOCKED"
        else check_buy_gates t.risk clock.time signal deposit

    -- The smallest quantity of a position: one share in overseas markets.
    abbrev pub min_quantity : ℤ
    min_quantity = if cfg.is_overseas then pos 1 else pos 0

    -- The order of a BUY that no gate refused, from its sizing on.
    abbrev pub size_and_buy :
        StockData F → String → F → F → TradingEngine F → Result (TradingEngine F)
    size_and_buy d code deposit price t =
        calculate_position_size t.risk deposit price min_quantity >>= λ quantity. ok (
          if leb_ℤ quantity (pos 0) then t else elim d.buyable [
            | none ↦ t
            | some buyable ↦
                if leb_ℤ buyable (pos 0)
                then t
                else execute_buy cfg clock d.answers code d.stock_name (min_ℤ quantity buyable)
                    price d.signal_word t
          ])

    -- A BUY signal of a stock that is not held
    unfoldable pub process_buy :
        StockData F → String → F → F → Signal F → TradingEngine F → Result (TradingEngine F)
    process_buy d code deposit price signal t = elim (reject_reason code signal deposit t) [
      | some reason ↦ ok (emit (outcome code reason) t)
      | none ↦ size_and_buy d code deposit price t
    ]

    -- `_process_stock` with daily bars, from the signal on
    abbrev pub process_signal :
        StockData F
        → String
        → F
        → Option (Holding F)
        → F
        → Signal F
        → TradingEngine F
        → Result (TradingEngine F)
    process_signal d code deposit holding price signal t = elim holding [
      | some h ↦
          ok (
            process_held_stock cfg clock d.answers code d.stock_name price h signal d.signal_word t)
      | none ↦
          signal_case signal.signal_type (process_buy d code deposit price signal t) (ok t) (ok t)
    ]

    -- `_process_stock`, with `_evaluate_held_without_daily`
    unfoldable pub process_stock :
        StockData F → String → F → Option (Holding F) → TradingEngine F → Result (TradingEngine F)
    process_stock d code deposit holding t = d.daily >>= λ has_bars.
        if has_bars
        then (d.quote >>= λ price.
            d.signal >>= λ signal. process_signal d code deposit holding price signal t)
        else elim holding [
          | none ↦ ok t
          | some h ↦ d.quote >>= λ price.
              ok (
                process_held_stock cfg clock d.answers code d.stock_name price h hold_signal none t)
        ]

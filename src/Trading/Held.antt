-- ===== src/Trading/Held.antt =====
-- src/engine.py, `_process_held_stock`: the exits of a held stock, in their order.
use Prim.Native.String.{String}
use text.Mathlib.Text.{◌==◌ as str_eq}
use kis_autotrader.Common.{Bool, true, false, ◌&&◌, Option, none, some, if◌then◌else◌}
use kis_autotrader.Common.Dict.{lookup, put}
use kis_autotrader.Common.Int.{ℤ}
use kis_autotrader.Float.{Float, of_ℕ, ◌⊖◌, ◌⊘◌, max_f}
use kis_autotrader.Strategy.{SignalType, Signal}
use kis_autotrader.Risk.Exits.{
  should_stop_loss, should_close_for_market_end, should_trailing_stop, should_take_profit,
  should_breakeven_stop, should_stagnation_exit,
}
use kis_autotrader.Trading.{Config, Clock, TradingEngine}
use kis_autotrader.Trading.Execution.{Answers, execute_sell}

-- What `_find_holding_from_balance` returns.
pub record Holding (F : Type 0) : Type 0 where
  pub quantity : ℤ
  pub avg_price : F

abbrev pub is_sell : SignalType → Bool
is_sell SignalType.sell = true
is_sell _ = false

module _ {F : Type 0} ⦃N : Float F⦄ where
  -- The literal 0.1.
  abbrev pub min_sell_confidence : F
  min_sell_confidence = of_ℕ 1 ⊘ of_ℕ 10

  -- The peak of a stock after the price is seen.
  abbrev pub next_peak : String → F → F → TradingEngine F → F
  next_peak code price avg t = elim (lookup code t.peak_prices) [
    | some prev ↦ max_f prev price
    | none ↦ max_f (max_f avg price) price
  ]

  -- `self._held_since.setdefault(code, now)`
  abbrev pub note_held : String → F → TradingEngine F → TradingEngine F
  note_held code now t = record t {
    held_since = elim (lookup code t.held_since) [
      | some _ ↦ t.held_since
      | none ↦ put code now t.held_since
    ];
  }

  -- The peak is raised and the holding time noted before any exit is tested.
  abbrev pub observe : Clock F → String → F → F → TradingEngine F → TradingEngine F
  observe clock code price avg t =
      note_held code clock.now
        (record t { peak_prices = put code (next_peak code price avg t) t.peak_prices })

  -- `_held_minutes`
  abbrev pub held_minutes : F → String → TradingEngine F → F
  held_minutes now code t = elim (lookup code t.held_since) [
    | none ↦ of_ℕ 0
    | some since ↦ (now ⊖ since) ⊘ of_ℕ 60
  ]

  module _ (cfg : Config F) (clock : Clock F) where
    abbrev pub strategy_sells : Signal F → Bool
    strategy_sells signal = is_sell signal.signal_type && N.le min_sell_confidence signal.confidence

    -- The first exit that applies, by the reason that the sell is recorded with. A stock without a
    -- price is not tested.
    unfoldable pub exit_reason : String → F → Holding F → Signal F → TradingEngine F → Option String
    exit_reason code price h signal t =
        let peak = next_peak code price h.avg_price t in
        let minutes = held_minutes clock.now code (observe clock code price h.avg_price t) in
        if should_stop_loss t.risk price h.avg_price
        then some "손절"
        else if should_close_for_market_end t.risk clock.time price h.avg_price
        then some "마감청산"
        else if cfg.trailing_stop_enabled && should_trailing_stop t.risk price h.avg_price peak
        then some "트레일링"
        else if (if cfg.trailing_stop_enabled
            then false
            else should_take_profit t.risk clock.time price h.avg_price none)
        then some "익절"
        else if should_breakeven_stop t.risk price h.avg_price peak
        then some "본전스톱"
        else if should_stagnation_exit t.risk h.avg_price peak minutes
        then some "정체청산"
        else if strategy_sells signal
        then some "전략매도"
        else none

    -- `_process_held_stock`
    unfoldable pub process_held_stock :
        Answers
        → String
        → String
        → F
        → Holding F
        → Signal F
        → Option String
        → TradingEngine F
        → TradingEngine F
    process_held_stock a code name price h signal signal_type t =
        if N.le price (of_ℕ 0) then t else elim (exit_reason code price h signal t) [
          | none ↦ observe clock code price h.avg_price t
          | some reason ↦
              execute_sell cfg clock a code h.quantity price reason (some h.avg_price)
                (if str_eq reason "전략매도" then signal_type else none) name
                (observe clock code price h.avg_price t)
        ]

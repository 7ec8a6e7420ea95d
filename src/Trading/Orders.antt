-- ===== src/Trading/Orders.antt =====
-- src/engine.py: confirmation of fills, records of trades, and the orders that are pending.
pub mod Confirmed
use Prim.Native.String.{String}
use text.Mathlib.Text.{◌==◌ as str_eq}
use kis_autotrader.Common.{
  ℕ, zero, suc, ◌+◌, ◌-◌, Bool, true, false, ◌&&◌, Option, none, some, List, [], ◌∷◌, ◌++◌, ltb,
  leb, keep, if◌then◌else◌,
}
use kis_autotrader.Common.Dict.{lookup, put, remove}
use kis_autotrader.Common.Int.{ℤ, pos, ◌-ℤ◌, ltb_ℤ, leb_ℤ}
use kis_autotrader.Float.{Float, of_ℕ, ◌⊖◌, ◌⊗◌, ◌⊘◌}
use kis_autotrader.Python.{or_default}
use kis_autotrader.Risk.Portfolio.{record_trade_result}
use kis_autotrader.Trading.{
  Side, buys, sells, SellReason, PendingOrder, Trade, Event, submitted, cancelled, recorded, Config,
  Clock, TradingEngine, emit, buys_of, count_buy, norm_price,
}

-- `_confirm_fill`: the change of the holding in the right direction.
abbrev pub filled_of : Side → ℤ → ℤ → ℤ
filled_of Side.buys before after = after -ℤ before
filled_of Side.sells before after = before -ℤ after

-- The loop over `tries` polls. `poll n` is the holding read with `n` tries left after it, none
-- where the call raises.
unfoldable pub confirm_fill : Side → ℤ → (ℕ → Option ℤ) → ℕ → ℤ
unfolding ◌-ℤ◌
confirm_fill side before poll zero = pos 0
confirm_fill side before poll (suc n) =
    let later = confirm_fill side before poll n in
    let filled = filled_of side before (or_default (poll n) before) in
    if ltb_ℤ (pos 0) filled then filled else later

-- `_SELL_REASON_MAP.get(reason)`
abbrev pub sell_reason_of : String → Option SellReason
sell_reason_of reason =
    if str_eq reason "손절"
    then some SellReason.stop_loss
    else if str_eq reason "익절"
    then some SellReason.take_profit
    else if str_eq reason "전략매도"
    then some SellReason.strategy
    else if str_eq reason "트레일링"
    then some SellReason.trailing_stop
    else if str_eq reason "마감청산"
    then some SellReason.market_close
    else if str_eq reason "본전스톱"
    then some SellReason.breakeven
    else if str_eq reason "정체청산"
    then some SellReason.stagnation
    else none

module _ {F : Type 0} ⦃N : Float F⦄ where
  -- `_reconcile_sell_reason`
  unfoldable pub reconcile_sell_reason : F → Option SellReason → Option SellReason
  reconcile_sell_reason pct (some SellReason.stop_loss) =
      if N.lt (of_ℕ 0) pct then some SellReason.take_profit else some SellReason.stop_loss
  reconcile_sell_reason pct (some SellReason.take_profit) =
      if N.lt pct (of_ℕ 0) then some SellReason.stop_loss else some SellReason.take_profit
  reconcile_sell_reason pct other = other

  -- `avg_price and avg_price > 0`
  abbrev pub positive_avg : Option F → Option F
  positive_avg none = none
  positive_avg (some a) = if N.lt (of_ℕ 0) a then some a else none

  -- The result of a sell goes into the risk manager, and the day of a loss is noted.
  abbrev pub book_result : Clock F → String → F → TradingEngine F → TradingEngine F
  book_result clock code amount t = record t {
    risk = record_trade_result amount t.risk;
    loss_sell_dates =
        if N.lt amount (of_ℕ 0) then put code clock.date t.loss_sell_dates else t.loss_sell_dates;
  }

  module _ (cfg : Config F) (clock : Clock F) where
    abbrev pub profit_loss_amount_of : ℤ → F → F → F
    profit_loss_amount_of quantity price avg =
        norm_price cfg ((norm_price cfg price ⊖ avg) ⊗ N.of_ℤ quantity)

    abbrev pub profit_loss_pct_of : F → F → F
    profit_loss_pct_of price avg = ((norm_price cfg price ⊖ avg) ⊘ avg) ⊗ of_ℕ 100

    abbrev pub trade_row :
        Side
        → String
        → ℤ
        → F
        → Option SellReason
        → Option String
        → Option F
        → Option F
        → ℕ
        → Trade F
    trade_row side code quantity price reason signal_type pct amount cycle = record {
      stock_code = code;
      trade_type = side;
      quantity = quantity;
      price = norm_price cfg price;
      traded_at = clock.now;
      cycle_number = cycle;
      sell_reason = reason;
      signal_type = signal_type;
      profit_loss_pct = pct;
      profit_loss_amount = amount;
    }

    -- `_record_trade_to_db`
    unfoldable pub record_trade :
        Side
        → String
        → ℤ
        → F
        → String
        → Option String
        → Option F
        → TradingEngine F
        → TradingEngine F
    record_trade Side.buys code quantity price reason signal_type avg t =
        emit
          (recorded
            (trade_row Side.buys code quantity price none signal_type none none t.cycle_count))
          t
    record_trade Side.sells code quantity price reason signal_type avg t = elim (positive_avg avg) [
      | none ↦
          emit
            (recorded (
              trade_row Side.sells code quantity price (sell_reason_of reason) signal_type none none
                t.cycle_count))
            t
      | some a ↦
          let amount = profit_loss_amount_of quantity price a in
          let pct = profit_loss_pct_of price a in
          emit
            (recorded (
              trade_row Side.sells code quantity price
                (reconcile_sell_reason pct (sell_reason_of reason)) signal_type (some pct)
                (some amount) t.cycle_count))
            (book_result clock code amount t)
    ]

    -- `_reconcile_orphan_fill` on a fill: the trade is counted, the order is tracked no more, and
    -- the trade is recorded.
    abbrev pub book_orphan : String → PendingOrder F → ℤ → TradingEngine F → TradingEngine F
    book_orphan code p filled t =
        let price = norm_price cfg p.price in
        let t₁ = record t {
          today_trade_count = suc t.today_trade_count;
          pending_orders = remove code t.pending_orders;
        } in
        let t₂ = record t₁ { peak_prices = remove code t₁.peak_prices } in
        elim p.side [
          | Side.buys ↦ record_trade Side.buys code filled price "" none none (count_buy code t₂)
          | Side.sells ↦ record_trade Side.sells code filled price "" p.signal_type p.avg_price t₂
        ]

    abbrev pub orphan_filled : PendingOrder F → Option ℤ → ℤ
    orphan_filled p held = confirm_fill p.side p.qty_before (λ _. held) 1

    abbrev pub drop_order : String → PendingOrder F → String → TradingEngine F → TradingEngine F
    drop_order code p reason t =
        emit (cancelled code p.order_no reason)
          (record t { pending_orders = remove code t.pending_orders })

    -- `_cancel_pending_order`, with the holding that a last poll reads. The order is tracked no
    -- more whether or not the broker's call raises.
    unfoldable pub cancel_pending_order :
        Option ℤ → String → PendingOrder F → String → TradingEngine F → TradingEngine F
    cancel_pending_order held code p reason t =
        if cfg.reconcile_orphan_fills && ltb_ℤ (pos 0) (orphan_filled p held)
        then book_orphan code p (orphan_filled p held) t
        else drop_order code p reason t

    abbrev pub is_stale : ℕ → PendingOrder F → Bool
    is_stale cycle p = leb cfg.order_pending_timeout_cycles (cycle - p.placed_cycle)

    -- `_suppress_or_replace_pending`
    unfoldable pub suppress_or_replace_pending :
        Option ℤ → String → TradingEngine F → Bool × TradingEngine F
    suppress_or_replace_pending held code t = elim (lookup code t.pending_orders) [
      | none ↦ (false, t)
      | some p ↦
          if is_stale t.cycle_count p
          then (false, cancel_pending_order held code p "timeout_replace" t)
          else (true, t)
    ]

    -- The loop of the two functions below, with the holding that each poll reads.
    unfoldable pub cancel_each :
        (String → Option ℤ)
        → String
        → List (String × PendingOrder F)
        → TradingEngine F
        → TradingEngine F
    cancel_each held reason [] t = t
    cancel_each held reason ((code, p) ∷ rest) t =
        cancel_each held reason rest (cancel_pending_order (held code) code p reason t)

    -- `_cleanup_stale_pending_orders`
    unfoldable pub cleanup_stale_pending_orders :
        (String → Option ℤ) → TradingEngine F → TradingEngine F
    cleanup_stale_pending_orders held t =
        cancel_each held "stale_cleanup" (keep (λ e. is_stale t.cycle_count e.1) t.pending_orders) t

    -- `_cancel_all_pending_orders`
    unfoldable pub cancel_all_pending_orders :
        (String → Option ℤ) → TradingEngine F → TradingEngine F
    cancel_all_pending_orders held t = cancel_each held "market_close" t.pending_orders t

-- ===== src/Trading/Ledger/Days.antt =====
-- A day of the engine: the cycles and the closing calls after the reset before the market.
use Prim.Native.String.{String}
use kis_autotrader.Common.{count, ◌≡◌, refl, ◌∙◌, List, arith}
use kis_autotrader.Common.Dict.{lookup}
use kis_autotrader.Common.Dict.Keys.{HasUniqueKeys}
use kis_autotrader.Common.Int.{ℤ}
use kis_autotrader.Common.{Option}
use kis_autotrader.Float.{Float}
use kis_autotrader.Risk.Portfolio.{reset_daily_risk}
use kis_autotrader.Trading.{Config, Clock, TradingEngine}
use kis_autotrader.Trading.Orders.{cancel_all_pending_orders}
use kis_autotrader.Trading.Cycle.{CycleData, pre_market, run_trading_cycle}
use kis_autotrader.Trading.Calls.{IsClosed, Fits}
use kis_autotrader.Trading.Calls.Pending.{cancel_all_pending_orders-Fits}
use kis_autotrader.Trading.Calls.Cycles.{run_trading_cycle-Fits}
use kis_autotrader.Trading.Calls.Cleared.{lookup-cancel_all_pending_orders}
use kis_autotrader.Trading.Ledger.Orders.{
  is_submission, is_settlement, open_of, IsCounted, IsCounted-IsClosed,
}
use kis_autotrader.Trading.Ledger.Standing.{IsAccounted, IsAccounted-IsClosed}
use kis_autotrader.Trading.Ledger.Booked.{IsBooked, IsBooked-IsClosed}

-- The states that an engine comes to by its cycles and by the cancellations at the close.
pub data Reaches {F : Type 0} ⦃N : Float F⦄ (cfg : Config F) (t : TradingEngine F)
    : TradingEngine F → Type 0 where
  start : Reaches cfg t t
  cycle :
      (clock : Clock F) (d : CycleData F) (t' : TradingEngine F)
      → Reaches cfg t t'
      → Reaches cfg t (run_trading_cycle cfg clock d t').1
  close :
      (clock : Clock F) (held : String → Option ℤ) (t' : TradingEngine F)
      → Reaches cfg t t'
      → Reaches cfg t (cancel_all_pending_orders cfg clock held t')

module _ {F : Type 0} ⦃N : Float F⦄ {cfg : Config F} where
  -- What is closed under the engine's changes holds in every state that it comes to.
  pub Reaches-Fits :
      {K : TradingEngine F → Type 0}
      → IsClosed cfg K
      → (t t' : TradingEngine F) → Fits K t
      → Reaches cfg t t'
      → Fits K t'
  Reaches-Fits c t t' f start = f
  Reaches-Fits c t t' f (cycle clock d t'' r) =
      run_trading_cycle-Fits c clock d t'' (Reaches-Fits c t t'' f r)
  Reaches-Fits c t t' f (close clock held t'' r) =
      cancel_all_pending_orders-Fits c clock held t'' (Reaches-Fits c t t'' f r)

  -- After the reset before the market, whatever cycles and closings follow: the orders of a stock were
  -- submitted one after the other, and each was, before the next one, recorded once or cancelled
  -- under its own number. Only the last one may still be open, and is then the one that is pending
  -- for the stock, under its number.
  pub Reaches-IsAccounted :
      (peaks : List (String × F)) (screened : List String) (yesterday t : TradingEngine F)
      → Reaches cfg (pre_market peaks screened yesterday) t
      → IsAccounted t × HasUniqueKeys t.pending_orders
  unfolding pre_market lookup
  Reaches-IsAccounted peaks screened yesterday t r =
      let f =
        Reaches-Fits (IsAccounted-IsClosed cfg) (pre_market peaks screened yesterday) t
          record { kept = λ j. refl; unique = tt; restored = refl } r in
      (f.kept, f.unique)

  -- Every order of a stock is recorded, cancelled or pending, by their numbers.
  pub Reaches-IsCounted :
      (peaks : List (String × F)) (screened : List String) (yesterday t : TradingEngine F)
      → Reaches cfg (pre_market peaks screened yesterday) t
      → IsCounted t × HasUniqueKeys t.pending_orders
  unfolding pre_market lookup
  Reaches-IsCounted peaks screened yesterday t r =
      let f =
        Reaches-Fits (IsCounted-IsClosed cfg) (pre_market peaks screened yesterday) t
          record { kept = λ j. omega arith; unique = tt; restored = refl } r in
      (f.kept, f.unique)

  -- After the reset before the market, whatever cycles and closings follow: the risk manager is the
  -- one that the results of the recorded sells lead to, and the counts of the day and of each stock
  -- are those of the recorded trades.
  pub Reaches-IsBooked :
      (peaks : List (String × F)) (screened : List String) (yesterday t : TradingEngine F)
      → Reaches cfg (pre_market peaks screened yesterday) t
      → IsBooked (reset_daily_risk yesterday.risk) t
  unfolding pre_market lookup
  Reaches-IsBooked peaks screened yesterday t r =
      let f =
        Reaches-Fits (IsBooked-IsClosed cfg (reset_daily_risk yesterday.risk))
          (pre_market peaks screened yesterday) t
          record {
            kept = record { risk = refl; trades = refl; entries = λ code. refl };
            unique = tt;
            restored = refl;
          }
          r in
      f.kept

  -- Once the pending orders are cancelled at the close of a day, a stock has as many recorded fills and
  -- cancellations as it had orders.
  pub cancel_all_pending_orders-is_settlement :
      (peaks : List (String × F)) (screened : List String) (clock : Clock F)
      (held : String → Option ℤ) (yesterday t : TradingEngine F) (code : String)
      → Reaches cfg (pre_market peaks screened yesterday) t
      → let t' = cancel_all_pending_orders cfg clock held t in
        count (is_submission code) t'.events ≡ count (is_settlement code) t'.events
  cancel_all_pending_orders-is_settlement peaks screened clock held yesterday t code r =
      let t' = cancel_all_pending_orders cfg clock held t in
      let (k, u) = Reaches-IsCounted peaks screened yesterday t' (close clock held t r) in
      k code ∙ rw (open_of, lookup-cancel_all_pending_orders cfg clock held code t) (omega arith)

-- ===== src/Trading/Calls/Cycles.antt =====
-- A whole cycle keeps what is closed under the changes.
use Prim.Native.String.{String}
use kis_autotrader.Common.{sym, subst, Bool, true, false, List, [], ◌∷◌, if◌then◌else◌}
use kis_autotrader.Float.{Float}
use kis_autotrader.Python.{Error, Result, ok, err}
use kis_autotrader.Trading.{Config, Clock, TradingEngine}
use kis_autotrader.Trading.Stock.{process_stock}
use kis_autotrader.Trading.Cycle.{
  Exit, CycleData, on_result, process_targets, evaluate_targets, screen_stocks, trade, guarded,
  count_cycle, run_trading_cycle,
}
use kis_autotrader.Trading.Cycle.Guards.{restore_risk_state-id}
use kis_autotrader.Trading.Calls.{IsClosed, Fits}
use kis_autotrader.Trading.Calls.Pending.{cleanup_stale_pending_orders-Fits}
use kis_autotrader.Trading.Calls.Stocks.{Yields, process_stock-Yields}

module _ {F : Type 0} ⦃N : Float F⦄ {cfg : Config F} {K : TradingEngine F → Type 0}
    (c : IsClosed cfg K) (clock : Clock F) (d : CycleData F) where
  limits-Fits : (t : TradingEngine F) → Fits K t → Fits K (record t { daily_limit_reached = true })
  limits-Fits t f = record { kept = c.limits t f.kept; unique = f.unique; restored = f.restored }

  if_Ends :
      (b : Bool) (x y : Exit × TradingEngine F)
      → Fits K x.1
      → Fits K y.1
      → Fits K (if b then x else y).1
  if_Ends true x y p q = p
  if_Ends false x y p q = q

  -- The clauses of a `try` end in a state that fits when each of them does.
  on_result-Fits :
      {A : Type 0}
      → (r : Result A) (value : A → Exit × TradingEngine F) (limit other : Exit × TradingEngine F)
      → Yields (λ x. Fits K (value x).1) r
      → Fits K limit.1
      → Fits K other.1
      → Fits K (on_result r value limit other).1
  on_result-Fits (ok x) value limit other p q s = p
  on_result-Fits (err Error.daily_limit_exceeded) value limit other p q s = q
  on_result-Fits (err Error.value_error) value limit other p q s = s
  on_result-Fits (err Error.key_error) value limit other p q s = s
  on_result-Fits (err Error.index_error) value limit other p q s = s
  on_result-Fits (err Error.zero_division) value limit other p q s = s
  on_result-Fits (err Error.risk_limit) value limit other p q s = s
  on_result-Fits (err Error.rate_limit_exceeded) value limit other p q s = s
  on_result-Fits (err Error.other) value limit other p q s = s
  on_result-Fits (err Error.strategy_error) value limit other p q s = s
  on_result-Fits (err Error.web_socket) value limit other p q s = s
  on_result-Fits (err Error.web_socket_reconnect_failed) value limit other p q s = s

  -- What every value has, the value of a call has.
  each-Yields :
      {A : Type 0}
      → (P Q : A → Type 0) (r : Result A) → ((x : A) → P x → Q x)
      → Yields P r
      → Yields Q r
  each-Yields P Q (ok x) h y = h x y
  each-Yields P Q (err e) h y = tt

  all-Yields : {A : Type 0} → (Q : A → Type 0) (r : Result A) → ((x : A) → Q x) → Yields Q r
  all-Yields Q (ok x) h = h x
  all-Yields Q (err e) h = tt

  process_targets-Fits :
      (deposit : F) (codes : List String) (t : TradingEngine F)
      → Fits K t
      → Fits K (process_targets cfg clock d deposit codes t).1
  unfolding process_targets
  process_targets-Fits deposit [] t f = f
  process_targets-Fits deposit (code ∷ codes) t f = if_Ends (d.stock_breaker_open code) _ _ f (
      on_result-Fits (process_stock cfg clock (d.stock code) code deposit (d.holding code) t) _ _ _
        (each-Yields (Fits K) _ _ (process_targets-Fits deposit codes)
          (process_stock-Yields c clock (d.stock code) code deposit (d.holding code) t f))
        (limits-Fits t f) (process_targets-Fits deposit codes t f))

  evaluate_targets-Fits :
      (limited : Bool) (t : TradingEngine F)
      → Fits K t
      → Fits K (evaluate_targets cfg clock d limited t).1
  evaluate_targets-Fits limited t f =
      on_result-Fits d.balance _ _ _
        (all-Yields _ d.balance (λ deposit. process_targets-Fits deposit _ t f)) (limits-Fits t f) f

  screen_stocks-Fits :
      (due : Bool) (t : TradingEngine F) → Fits K t → Fits K (screen_stocks cfg clock d due t).1
  screen_stocks-Fits due t f =
      if_Ends due _ _
        (on_result-Fits (d.screening t.screened_codes) _ _ _
          (all-Yields _ (d.screening t.screened_codes) (λ codes.
            evaluate_targets-Fits false (record t { screened_codes = codes })
              record { kept = c.screens codes t f.kept; unique = f.unique; restored = f.restored }))
          (limits-Fits t f) f)
        (evaluate_targets-Fits _ t f)

  trade-Fits : (t : TradingEngine F) → Fits K t → Fits K (trade cfg clock d t).1
  trade-Fits t f =
      screen_stocks-Fits _ _ (cleanup_stale_pending_orders-Fits c clock d.stale_held t f)

  guarded-Fits : (t : TradingEngine F) → Fits K t → Fits K (guarded cfg clock d t).1
  guarded-Fits t f =
      if_Ends t.daily_limit_reached _ _ f
        (if_Ends t.risk.portfolio_halted _ _ f (if_Ends d.breaker_open _ _ f (trade-Fits t f)))

  pub run_trading_cycle-Fits :
      (t : TradingEngine F) → Fits K t → Fits K (run_trading_cycle cfg clock d t).1
  unfolding run_trading_cycle
  run_trading_cycle-Fits t f = if_Ends d.halt_file _ _ counted (
      guarded-Fits _
        (subst (Fits K) (sym (restore_risk_state-id cfg clock d next f.restored)) counted))
    where
      next : TradingEngine F
      next = count_cycle cfg clock d t

      counted : Fits K (count_cycle cfg clock d t)
      counted = record { kept = c.ticks t f.kept; unique = f.unique; restored = f.restored }

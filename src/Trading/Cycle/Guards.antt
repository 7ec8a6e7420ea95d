-- ===== src/Trading/Cycle/Guards.antt =====
-- The guards of a cycle: the recovery that runs once, and the halt of the portfolio.
use kis_autotrader.Common.{
  ◌+◌, ◌≡◌, refl, ap, ◌∙◌, Bool, true, false, List, [], ◌∷◌, length, arith, if◌then◌else◌,
}
use kis_autotrader.Float.{Float}
use kis_autotrader.Trading.{Config, Clock, TradingEngine}
use kis_autotrader.Trading.Cycle.{
  Exit, CycleData, restore_risk_state, trade, guarded, count_cycle, run_trading_cycle,
}

module _ {F : Type 0} ⦃N : Float F⦄ (cfg : Config F) where
  module _ (clock : Clock F) (d : CycleData F) where
    -- Only the first cycle after a restart restores.
    pub restore_risk_state-id :
        (t : TradingEngine F)
        → t.risk_state_restored ≡ true
        → restore_risk_state cfg clock.date d.saved_peaks d.trades_today t ≡ t
    unfolding restore_risk_state
    restore_risk_state-id t h = rw (restore_risk_state, h) refl

    one_end :
        (t : TradingEngine F) (b : Bool) (x y : Exit × TradingEngine F)
        → x.1 ≡ t
        → y.1 ≡ t
        → (if b then x else y).1 ≡ t
    one_end t true x y p q = p
    one_end t false x y p q = q

    first : (b : Bool) (x y : Exit × TradingEngine F) → b ≡ true → (if b then x else y).1 ≡ x.1
    first b x y h = ap (λ c. (if c then x else y).1) h

    guarded-halted :
        (t : TradingEngine F) → t.risk.portfolio_halted ≡ true → (guarded cfg clock d t).1 ≡ t
    guarded-halted t h = one_end t t.daily_limit_reached _ _ refl (
        first t.risk.portfolio_halted (Exit.portfolio_halted, t)
          (if d.breaker_open then (Exit.circuit_breaker_open, t) else trade cfg clock d t) h)

    run_trading_cycle-halted :
        (t : TradingEngine F)
        → t.risk_state_restored ≡ true
        → t.risk.portfolio_halted ≡ true
        → (run_trading_cycle cfg clock d t).1 ≡ count_cycle cfg clock d t
    unfolding run_trading_cycle
    run_trading_cycle-halted t r h = one_end (count_cycle cfg clock d t) d.halt_file _ _ refl (
        ap (λ u. (guarded cfg clock d u).1) (restore_risk_state-id (count_cycle cfg clock d t) r)
        ∙ guarded-halted (count_cycle cfg clock d t) h)

  -- Cycles, each with its clock and its data.
  abbrev pub run_cycles : List (Clock F × CycleData F) → TradingEngine F → TradingEngine F
  run_cycles [] t = t
  run_cycles ((clock, d) ∷ cs) t = run_cycles cs (run_trading_cycle cfg clock d t).1

  -- Cycles of an engine whose portfolio is halted, and that has nothing to restore, count and change
  -- nothing else: no stock that is held is sold.
  pub run_cycles-halted :
      (cs : List (Clock F × CycleData F)) (t : TradingEngine F)
      → t.risk_state_restored ≡ true
      → t.risk.portfolio_halted ≡ true
      → run_cycles cs t ≡ record t { cycle_count = length cs + t.cycle_count }
  run_cycles-halted [] t r h = ap (λ n. record t { cycle_count = n }) (omega arith)
  run_cycles-halted ((clock, d) ∷ cs) t r h =
      ap (run_cycles cs) (run_trading_cycle-halted clock d t r h)
      ∙ run_cycles-halted cs (count_cycle cfg clock d t) r h
      ∙ ap (λ n. record t { cycle_count = n }) (omega arith)

-- ===== src/Risk/Portfolio/History.antt =====
-- The portfolio state after a day of sells, described by the day's results alone.
use Prim.Native.String.{String}
use kis_autotrader.Common.{
  ◌≡◌, refl, ◌∙◌, ◌&&◌, Option, none, some, List, [], ◌∷◌, arith, if◌then◌else◌,
}
use kis_autotrader.Common.Int.{ℤ, pos, ◌+ℤ◌, leb_ℤ}
use kis_autotrader.Float.{Float, of_ℕ, ◌⊕◌, ◌⊖◌, ◌⊘◌}
use kis_autotrader.Python.{is_some}
use kis_autotrader.Risk.Manager.{Settings, RiskManager}
use kis_autotrader.Risk.Portfolio.{
  max_daily_drawdown_code, max_daily_loss_code, max_consecutive_losses_code, record_trade_result,
  record_trades, reset_daily_risk,
}

module _ {F : Type 0} ⦃N : Float F⦄ where
  -- The results of a day, newest first, on top of `older` ones.
  abbrev pub newest_first : List F → List F → List F
  newest_first [] older = older
  newest_first (t ∷ ts) older = newest_first ts (t ∷ older)

  -- The sum of a history, in the order of the day.
  abbrev pub total : List F → F
  total [] = of_ℕ 0
  total (t ∷ older) = total older ⊕ t

  -- The best sum that the day has seen, 0 at its start.
  abbrev pub best : List F → F
  best [] = of_ℕ 0
  best (t ∷ older) = if N.lt (best older) (total older ⊕ t) then total older ⊕ t else best older

  -- The losses since the last gain; a result of 0 is neither.
  abbrev pub losing_run : List F → ℤ
  losing_run [] = pos 0
  losing_run (t ∷ older) =
      if N.lt t (of_ℕ 0)
      then losing_run older +ℤ pos 1
      else if N.lt (of_ℕ 0) t
      then pos 0
      else losing_run older

  module _ (limits : Settings F) where
    -- The limit that a history breaks, the drawdown before the loss before the run.
    abbrev pub breach : List F → Option String
    breach h =
        if N.lt (of_ℕ 0) (best h)
          && N.lt (total h) (of_ℕ 0)
          && N.le limits.max_daily_drawdown ((best h ⊖ total h) ⊘ best h)
        then some max_daily_drawdown_code
        else if N.lt (of_ℕ 0) limits.max_daily_loss_abs
            && N.le (total h) (N.neg limits.max_daily_loss_abs)
        then some max_daily_loss_code
        else if leb_ℤ limits.max_consecutive_losses (losing_run h)
        then some max_consecutive_losses_code
        else none

    -- The first limit that the day broke.
    abbrev pub first_breach : List F → Option String
    first_breach [] = none
    first_breach (t ∷ older) = elim (first_breach older) [
      | some r ↦ some r
      | none ↦ breach (t ∷ older)
    ]

  -- The manager's fields are those of the history.
  pub record Tracks (m : RiskManager F) (h : List F) : Type 0 where
    pub cumulative : m.daily_cumulative_pnl ≡ total h
    pub peak : m.daily_peak_pnl ≡ best h
    pub losses : m.consecutive_losses ≡ losing_run h
    pub reason : m.halt_reason ≡ first_breach m.limits h
    pub halted : m.portfolio_halted ≡ is_some (first_breach m.limits h)

  step-Tracks :
      (t : F) (m : RiskManager F) (h : List F)
      → Tracks m h
      → Tracks (record_trade_result t m) (t ∷ h)
  unfolding record_trade_result
  step-Tracks t m h k = record {
    cumulative = ground arith;
    peak = ground arith;
    losses = ground arith;
    reason = ground arith;
    halted = ground arith;
  }

  record_trade_result-limits :
      (t : F) (m : RiskManager F) → (record_trade_result t m).limits ≡ m.limits
  unfolding record_trade_result
  record_trade_result-limits t m = ground arith

  pub record_trades-limits :
      (ts : List F) (m : RiskManager F) → (record_trades ts m).limits ≡ m.limits
  unfolding record_trades
  record_trades-limits [] m = refl
  record_trades-limits (t ∷ ts) m =
      record_trades-limits ts (record_trade_result t m) ∙ record_trade_result-limits t m

  record_trades-Tracks :
      (ts : List F) (m : RiskManager F) (h : List F)
      → Tracks m h
      → Tracks (record_trades ts m) (newest_first ts h)
  unfolding record_trades
  record_trades-Tracks [] m h k = k
  record_trades-Tracks (t ∷ ts) m h k =
      record_trades-Tracks ts (record_trade_result t m) (t ∷ h) (step-Tracks t m h k)

  -- After the morning's reset and any sells the manager holds exactly what the day's results say:
  -- their sum, the best sum so far, the length of the current losing run, and the first limit that
  -- some moment of the day broke. It is halted if and only if there is such a limit, and its limits
  -- are the old ones.
  pub record_trades-reset :
      (ts : List F) (m : RiskManager F)
      → let m' = record_trades ts (reset_daily_risk m) in
        Tracks m' (newest_first ts []) × (m'.limits ≡ m.limits)
  unfolding reset_daily_risk
  record_trades-reset ts m = (
    record_trades-Tracks ts (reset_daily_risk m) []
        (record { cumulative = refl; peak = refl; losses = refl; reason = refl; halted = refl }),
    record_trades-limits ts (reset_daily_risk m),
  )

-- ===== src/Risk/Portfolio.antt =====
-- The portfolio's daily risk state: `record_trade_result`, `reset_daily_risk`, `snapshot` and
-- `restore`. Log lines are left out.
pub mod History
pub mod Recovery
use Prim.Native.String.{String}
use kis_autotrader.Common.{
  ℕ, Bool, true, false, ◌&&◌, Option, none, some, List, [], ◌∷◌, if◌then◌else◌,
}
use kis_autotrader.Common.Int.{ℤ, pos, ◌+ℤ◌, leb_ℤ}
use kis_autotrader.Float.{Float, of_ℕ, ◌⊕◌, ◌⊖◌, ◌⊘◌}
use kis_autotrader.Python.{Value, nothing, int, float, bool, str, get}
use kis_autotrader.Risk.Manager.{RiskManager}

-- The reason codes that the class writes.
abbrev pub max_daily_drawdown_code : String
max_daily_drawdown_code = "MAX_DAILY_DRAWDOWN"

abbrev pub max_daily_loss_code : String
max_daily_loss_code = "MAX_DAILY_LOSS_ABS"

abbrev pub max_consecutive_losses_code : String
max_consecutive_losses_code = "MAX_CONSECUTIVE_LOSSES"

module _ {F : Type 0} where
  abbrev pub reason_value : Option String → Value F
  reason_value none = nothing
  reason_value (some r) = str r

  -- `reason is None or isinstance(reason, str)`: None is written too
  abbrev pub reason_or : Value F → Option String → Option String
  reason_or nothing old = none
  reason_or (str r) old = some r
  reason_or _ old = old

module _ {F : Type 0} ⦃N : Float F⦄ where
  -- Halts; the first reason stays.
  abbrev pub halt : String → RiskManager F → RiskManager F
  halt code m = record m {
    portfolio_halted = true;
    halt_reason = elim m.halt_reason [ none ↦ some code | some r ↦ some r ];
  }

  abbrev pub add_pnl : F → RiskManager F → RiskManager F
  add_pnl pnl m =
      let total = m.daily_cumulative_pnl ⊕ pnl in
      record m {
        daily_cumulative_pnl = total;
        daily_peak_pnl = if N.lt m.daily_peak_pnl total then total else m.daily_peak_pnl;
      }

  abbrev pub count_loss : F → RiskManager F → RiskManager F
  count_loss pnl m = record m {
    consecutive_losses =
        if N.lt pnl (of_ℕ 0)
        then m.consecutive_losses +ℤ pos 1
        else if N.lt (of_ℕ 0) pnl
        then pos 0
        else m.consecutive_losses;
  }

  -- The fall from the peak, as a share of the peak, has reached the limit on a day with a net loss.
  abbrev pub drawdown_reached : RiskManager F → Bool
  drawdown_reached m =
      N.lt (of_ℕ 0) m.daily_peak_pnl
      && N.lt m.daily_cumulative_pnl (of_ℕ 0)
      && N.le m.limits.max_daily_drawdown
          ((m.daily_peak_pnl ⊖ m.daily_cumulative_pnl) ⊘ m.daily_peak_pnl)

  abbrev pub loss_reached : RiskManager F → Bool
  loss_reached m =
      N.lt (of_ℕ 0) m.limits.max_daily_loss_abs
      && N.le m.daily_cumulative_pnl (N.neg m.limits.max_daily_loss_abs)

  abbrev pub streak_reached : RiskManager F → Bool
  streak_reached m = leb_ℤ m.limits.max_consecutive_losses m.consecutive_losses

  abbrev halt_if : Bool → String → RiskManager F → RiskManager F
  halt_if c code m = if c then halt code m else m

  unfoldable pub record_trade_result : F → RiskManager F → RiskManager F
  record_trade_result pnl m₀ =
      let m₁ = count_loss pnl (add_pnl pnl m₀) in
      let m₂ = halt_if (drawdown_reached m₁) max_daily_drawdown_code m₁ in
      let m₃ = halt_if (loss_reached m₂) max_daily_loss_code m₂ in
      halt_if (streak_reached m₃) max_consecutive_losses_code m₃

  -- A day of sells, oldest first.
  unfoldable pub record_trades : List F → RiskManager F → RiskManager F
  record_trades [] m = m
  record_trades (pnl ∷ rest) m = record_trades rest (record_trade_result pnl m)

  unfoldable pub reset_daily_risk : RiskManager F → RiskManager F
  reset_daily_risk m = record m {
    daily_peak_pnl = of_ℕ 0;
    daily_cumulative_pnl = of_ℕ 0;
    consecutive_losses = pos 0;
    portfolio_halted = false;
    halt_reason = none;
  }

  unfoldable pub snapshot : RiskManager F → List (String × Value F)
  snapshot m =
      ("daily_peak_pnl", float m.daily_peak_pnl)
      ∷ ("daily_cumulative_pnl", float m.daily_cumulative_pnl)
      ∷ ("consecutive_losses", int m.consecutive_losses)
      ∷ ("portfolio_halted", bool m.portfolio_halted)
      ∷ ("halt_reason", reason_value m.halt_reason)
      ∷ []

  -- `isinstance(v, (int, float)) and not isinstance(v, bool)`, with the old value otherwise
  abbrev number_or : Value F → F → F
  number_or (int a) old = N.of_ℤ a
  number_or (float x) old = x
  number_or _ old = old

  abbrev int_or : Value F → ℤ → ℤ
  int_or (int a) old = a
  int_or _ old = old

  abbrev bool_or : Value F → Bool → Bool
  bool_or (bool b) old = b
  bool_or _ old = old

  unfoldable pub restore : List (String × Value F) → RiskManager F → RiskManager F
  restore state m = record m {
    daily_peak_pnl = number_or (get state "daily_peak_pnl") m.daily_peak_pnl;
    daily_cumulative_pnl = number_or (get state "daily_cumulative_pnl") m.daily_cumulative_pnl;
    consecutive_losses = int_or (get state "consecutive_losses") m.consecutive_losses;
    portfolio_halted = bool_or (get state "portfolio_halted") m.portfolio_halted;
    halt_reason = reason_or (get state "halt_reason") m.halt_reason;
  }

-- ===== src/Risk/Gates.antt =====
-- What stands before a buy: the size of a position, the day's number of trades, the gates, and
-- `validate_order`, which the gates replace. Log lines are left out.
pub mod Verdicts
use Prim.Native.String.{String}
use kis_autotrader.Common.{Bool, true, false, ◌&&◌, Option, none, some, if◌then◌else◌}
use kis_autotrader.Common.Int.{ℤ, pos, leb_ℤ, ltb_ℤ}
use kis_autotrader.Float.{Float, of_ℕ, ◌⊗◌, ◌⊘◌}
use kis_autotrader.Python.{Result, ok, err, risk_limit, str_or}
use kis_autotrader.Strategy.{SignalType, Signal}
use kis_autotrader.Risk.Manager.{RiskManager}
use kis_autotrader.Risk.Portfolio.{max_consecutive_losses_code}
use kis_autotrader.Risk.Exits.{Time, is_near_market_close}

abbrev pub market_close_guard_code : String
market_close_guard_code = "MARKET_CLOSE_GUARD"

abbrev pub insufficient_cash_code : String
insufficient_cash_code = "INSUFFICIENT_CASH"

abbrev pub low_confidence_code : String
low_confidence_code = "LOW_CONFIDENCE"

abbrev pub is_buy : SignalType → Bool
is_buy SignalType.buy = true
is_buy _ = false

abbrev pub is_hold : SignalType → Bool
is_hold SignalType.hold = true
is_hold _ = false

-- `max` of two ints
abbrev pub max_ℤ : ℤ → ℤ → ℤ
max_ℤ a b = if ltb_ℤ a b then b else a

module _ {F : Type 0} ⦃N : Float F⦄ where
  unfoldable pub calculate_position_size : RiskManager F → F → F → ℤ → Result ℤ
  calculate_position_size m total_balance price min_quantity =
      if N.le total_balance (of_ℕ 0)
      then err risk_limit
      else if N.le price (of_ℕ 0)
      then err risk_limit
      else ok
          (max_ℤ min_quantity (N.to_int ((total_balance ⊗ m.limits.max_position_ratio) ⊘ price)))

  unfoldable pub check_daily_trade_limit : RiskManager F → ℤ → Bool
  check_daily_trade_limit m trade_count = leb_ℤ m.limits.daily_trade_limit trade_count

  -- `target_price is not None and target_price > balance`
  abbrev pub exceeds : Option F → F → Bool
  exceeds none balance = false
  exceeds (some target) balance = N.lt balance target

  unfoldable pub check_buy_gates : RiskManager F → Time → Signal F → F → Option String
  check_buy_gates m now s balance =
      if is_buy s.signal_type
      then if m.portfolio_halted
        then some (str_or m.halt_reason max_consecutive_losses_code)
        else if is_near_market_close m now
        then some market_close_guard_code
        else if N.le balance (of_ℕ 0)
        then some insufficient_cash_code
        else if exceeds s.target_price balance
        then some insufficient_cash_code
        else if N.lt s.confidence m.limits.min_confidence
        then some low_confidence_code
        else none
      else none

  unfoldable pub validate_order : RiskManager F → Time → Signal F → F → Result Bool
  validate_order m now s balance =
      if is_hold s.signal_type
      then ok false
      else if is_buy s.signal_type && is_near_market_close m now
      then ok false
      else if is_buy s.signal_type && N.le balance (of_ℕ 0)
      then err risk_limit
      else if is_buy s.signal_type && exceeds s.target_price balance
      then err risk_limit
      else if N.lt s.confidence m.limits.min_confidence
      then ok false
      else ok true

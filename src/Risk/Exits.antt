-- ===== src/Risk/Exits.antt =====
-- The tests that decide whether a held position is sold. `now` is the clock in the market's
-- timezone, which the code reads itself where no time is passed.
pub mod Order
pub mod Conflicts
use kis_autotrader.Common.{
  ℕ, Bool, true, false, not, ◌&&◌, ◌||◌, Option, ltb, leb, ◌==◌, if◌then◌else◌,
}
use kis_autotrader.Float.{Float, of_ℕ, ◌⊖◌, ◌⊗◌, ◌⊘◌}
use kis_autotrader.Python.{Result, ok, err, risk_limit, or_default}
use kis_autotrader.Risk.Manager.{Settings, RiskManager}

pub record Time : Type 0 where
  pub hour : ℕ
  pub minute : ℕ

module _ {F : Type 0} ⦃N : Float F⦄ where
  -- The literal 0.5.
  abbrev pub half : F
  half = of_ℕ 1 ⊘ of_ℕ 2

  unfoldable pub is_near_market_close : RiskManager F → Time → Bool
  is_near_market_close m now =
      ltb m.limits.market_close_cutoff_hour now.hour
      || (now.hour == m.limits.market_close_cutoff_hour
          && leb m.limits.market_close_cutoff_minute now.minute)

  unfoldable pub check_max_loss : RiskManager F → F → F → Result Bool
  check_max_loss m current_price avg_price =
      if N.le avg_price (of_ℕ 0)
      then err risk_limit
      else ok (N.lt m.limits.max_loss_rate ((avg_price ⊖ current_price) ⊘ avg_price))

  unfoldable pub should_breakeven_stop : RiskManager F → F → F → F → Bool
  should_breakeven_stop m current_price avg_price peak_price =
      if N.le m.limits.breakeven_activation_ratio (of_ℕ 0) || N.le avg_price (of_ℕ 0)
      then false
      else N.le m.limits.breakeven_activation_ratio ((peak_price ⊖ avg_price) ⊘ avg_price)
        && N.le current_price avg_price

  unfoldable pub should_stagnation_exit : RiskManager F → F → F → F → Bool
  should_stagnation_exit m avg_price peak_price held_minutes =
      if N.le m.limits.stagnation_hours (of_ℕ 0) || N.le avg_price (of_ℕ 0)
      then false
      else if N.lt held_minutes (m.limits.stagnation_hours ⊗ of_ℕ 60)
      then false
      else N.lt ((peak_price ⊖ avg_price) ⊘ avg_price) m.limits.trailing_activation_ratio

  unfoldable pub should_stop_loss : RiskManager F → F → F → Bool
  should_stop_loss m current_price avg_price =
      if N.le avg_price (of_ℕ 0)
      then false
      else N.le m.limits.max_loss_rate ((avg_price ⊖ current_price) ⊘ avg_price)

  unfoldable pub should_take_profit : RiskManager F → Time → F → F → Option F → Bool
  unfolding is_near_market_close
  should_take_profit m now current_price avg_price profit_ratio =
      if N.le avg_price (of_ℕ 0)
      then false
      else let target = or_default profit_ratio m.limits.take_profit_ratio in
        let target_ratio = if is_near_market_close m now then target ⊗ half else target in
        N.le target_ratio ((current_price ⊖ avg_price) ⊘ avg_price)

  unfoldable pub should_trailing_stop : RiskManager F → F → F → F → Bool
  should_trailing_stop m current_price avg_price peak_price =
      if N.le avg_price (of_ℕ 0) || N.le peak_price (of_ℕ 0)
      then false
      else if N.lt ((peak_price ⊖ avg_price) ⊘ avg_price) m.limits.trailing_activation_ratio
      then false
      else N.le m.limits.trailing_drawdown_ratio ((peak_price ⊖ current_price) ⊘ peak_price)

  unfoldable pub should_close_for_market_end : RiskManager F → Time → F → F → Bool
  unfolding is_near_market_close
  should_close_for_market_end m now current_price avg_price =
      let profit = (current_price ⊖ avg_price) ⊘ avg_price in
      let enough = N.le m.limits.min_profitable_close profit in
      let deep =
        N.lt (of_ℕ 0) m.limits.market_close_loss_cut_rate
        && N.le profit (N.neg m.limits.market_close_loss_cut_rate) in
      if N.le avg_price (of_ℕ 0)
      then false
      else if not (is_near_market_close m now)
      then false
      else if enough
      then true
      else deep

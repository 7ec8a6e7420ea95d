-- ===== src/Risk/Exits/Order.antt =====
-- The exits move with the price: what is sold at a price is sold at any worse one.
use kis_autotrader.Common.{◌≡◌, true, false, not, ap, Option, arith}
use kis_autotrader.Float.{Float, IsRounded, ◌≼◌, of_ℕ, ◌⊖◌, ◌⊘◌, ◌⊗◌}
use kis_autotrader.Python.{or_default}
use kis_autotrader.Risk.Manager.{RiskManager}
use kis_autotrader.Risk.Exits.{
  Time, half, should_stop_loss, should_take_profit, should_trailing_stop,
}

module _ {F : Type 0} ⦃N : Float F⦄ (laws : IsRounded F) where
  open laws use {le_refl, le_trans, le_total, lt-eq-not_le, sub_mono, div_mono}

  -- A quotient by the same positive number grows with the dividend.
  pub drop_mono :
      (p q top avg : F) → q ≼ p → N.le avg (of_ℕ 0) ≡ false → (top ⊖ p) ⊘ avg ≼ (top ⊖ q) ⊘ avg
  drop_mono p q top avg h positive =
      div_mono (top ⊖ p) (top ⊖ q) avg (rw lt-eq-not_le (ap not positive))
        (sub_mono top top q p (le_refl top) h)

  pub gain_mono :
      (p q avg : F) → p ≼ q → N.le avg (of_ℕ 0) ≡ false → (p ⊖ avg) ⊘ avg ≼ (q ⊖ avg) ⊘ avg
  gain_mono p q avg h positive =
      div_mono (p ⊖ avg) (q ⊖ avg) avg (rw lt-eq-not_le (ap not positive))
        (sub_mono p q avg avg h (le_refl avg))

  -- If a position is stopped out at a price, it is at every lower price.
  pub should_stop_loss_mono :
      (m : RiskManager F) (p q avg : F)
      → q ≼ p
      → should_stop_loss m p avg ≡ true
      → should_stop_loss m q avg ≡ true
  unfolding should_stop_loss
  should_stop_loss_mono m p q avg h stop = ground (
    arith,
    drop_mono p q avg avg h,
    le_trans m.limits.max_loss_rate ((avg ⊖ p) ⊘ avg) ((avg ⊖ q) ⊘ avg),
  )

  -- If a profit is taken at a price, it is at every higher price, at the same time of day.
  pub should_take_profit_mono :
      (m : RiskManager F) (now : Time) (p q avg : F) (ratio : Option F)
      → p ≼ q
      → should_take_profit m now p avg ratio ≡ true
      → should_take_profit m now q avg ratio ≡ true
  unfolding should_take_profit
  should_take_profit_mono m now p q avg ratio h take =
      let target = or_default ratio m.limits.take_profit_ratio in
      ground (
        arith,
        gain_mono p q avg h,
        le_trans target ((p ⊖ avg) ⊘ avg) ((q ⊖ avg) ⊘ avg),
        le_trans (target ⊗ half) ((p ⊖ avg) ⊘ avg) ((q ⊖ avg) ⊘ avg),
      )

  -- A trailing stop that fires at a price fires at every lower price, for the same peak.
  pub should_trailing_stop_mono :
      (m : RiskManager F) (p q avg peak : F)
      → q ≼ p
      → should_trailing_stop m p avg peak ≡ true
      → should_trailing_stop m q avg peak ≡ true
  unfolding should_trailing_stop
  should_trailing_stop_mono m p q avg peak h stop = ground (
    arith,
    drop_mono p q peak peak h,
    le_trans m.limits.trailing_drawdown_ratio ((peak ⊖ p) ⊘ peak) ((peak ⊖ q) ⊘ peak),
  )

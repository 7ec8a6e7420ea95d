-- ===== src/Risk/Exits/Conflicts.antt =====
-- How the exits exclude or imply one another.
use kis_autotrader.Common.{◌≡◌, inl, inr, true, false, Option, arith}
use kis_autotrader.Common.Int.{pos}
use kis_autotrader.Float.{Float, IsRounded, ◌≼◌, ◌≺◌, of_ℕ, ◌⊖◌, ◌⊘◌, ◌⊗◌}
use kis_autotrader.Python.{ok, or_default}
use kis_autotrader.Risk.Manager.{RiskManager}
use kis_autotrader.Risk.Exits.{
  Time, half, is_near_market_close, check_max_loss, should_breakeven_stop, should_stagnation_exit,
  should_stop_loss, should_take_profit, should_trailing_stop,
}
use kis_autotrader.Risk.Exits.Order.{drop_mono, gain_mono}

module _ {F : Type 0} ⦃N : Float F⦄ where
  -- Where a stagnation exit fires, the trailing stop fires at no price, for the same purchase price
  -- and peak.
  pub stagnation-not-trailing :
      (m : RiskManager F) (current_price avg peak held : F)
      → should_stagnation_exit m avg peak held ≡ true
      → should_trailing_stop m current_price avg peak ≡ false
  unfolding should_stagnation_exit should_trailing_stop
  stagnation-not-trailing m current_price avg peak held h = ground arith

module _ {F : Type 0} ⦃N : Float F⦄ (laws : IsRounded F) where
  open laws use {
    le_refl, le_trans, le_total, lt-eq-not_le, sub_self, div_mono, zero_div, mul_mono, mul_one,
    div_self, of_ℤ_mono, zero-lt-one,
  }

  not_le_of_lt : (x y : F) → x ≺ y → N.le y x ≡ false
  not_le_of_lt x y h = ground (arith, lt-eq-not_le x y)

  lt_of_not_le : (x y : F) → N.le y x ≡ false → x ≺ y
  lt_of_not_le x y h = ground (arith, lt-eq-not_le x y)

  -- A price that is not above the purchase price gains nothing.
  gain_nonpos : (p avg : F) → p ≼ avg → N.le avg (of_ℕ 0) ≡ false → (p ⊖ avg) ⊘ avg ≼ of_ℕ 0
  gain_nonpos p avg h positive =
      let above = lt_of_not_le (of_ℕ 0) avg positive in
      le_trans ((p ⊖ avg) ⊘ avg) ((avg ⊖ avg) ⊘ avg) (of_ℕ 0) (gain_mono laws p avg avg h positive)
        (le_trans ((avg ⊖ avg) ⊘ avg) (of_ℕ 0 ⊘ avg) (of_ℕ 0)
          (div_mono (avg ⊖ avg) (of_ℕ 0) avg above (sub_self avg).0) (zero_div avg above).0)

  loss_nonpos : (p avg : F) → avg ≼ p → N.le avg (of_ℕ 0) ≡ false → (avg ⊖ p) ⊘ avg ≼ of_ℕ 0
  loss_nonpos p avg h positive =
      let above = lt_of_not_le (of_ℕ 0) avg positive in
      le_trans ((avg ⊖ p) ⊘ avg) ((avg ⊖ avg) ⊘ avg) (of_ℕ 0)
        (drop_mono laws p avg avg avg h positive)
        (le_trans ((avg ⊖ avg) ⊘ avg) (of_ℕ 0 ⊘ avg) (of_ℕ 0)
          (div_mono (avg ⊖ avg) (of_ℕ 0) avg above (sub_self avg).0) (zero_div avg above).0)

  -- No profit is taken at a price that is not above the purchase price, where the target and its
  -- half are positive.
  no_profit_below :
      (m : RiskManager F) (now : Time) (p avg : F) (ratio : Option F)
      → (of_ℕ 0 ≺ or_default ratio m.limits.take_profit_ratio)
      → (of_ℕ 0 ≺ or_default ratio m.limits.take_profit_ratio ⊗ half)
      → p ≼ avg
      → should_take_profit m now p avg ratio ≡ false
  unfolding should_take_profit
  no_profit_below m now p avg ratio target halved h =
      let t = or_default ratio m.limits.take_profit_ratio in
      let g = (p ⊖ avg) ⊘ avg in
      ground (
        arith,
        gain_nonpos p avg h,
        not_le_of_lt (of_ℕ 0) t,
        not_le_of_lt (of_ℕ 0) (t ⊗ half),
        le_trans t g (of_ℕ 0),
        le_trans (t ⊗ half) g (of_ℕ 0),
      )

  -- With positive limits a position is never stopped out and sold for a profit at one price; so
  -- the order in which the two are tested does not matter.
  pub stop_loss-not-take_profit :
      (m : RiskManager F) (now : Time) (p avg : F) (ratio : Option F)
      → of_ℕ 0 ≺ m.limits.max_loss_rate
      → (of_ℕ 0 ≺ or_default ratio m.limits.take_profit_ratio)
      → (of_ℕ 0 ≺ or_default ratio m.limits.take_profit_ratio ⊗ half)
      → should_stop_loss m p avg ≡ true
      → should_take_profit m now p avg ratio ≡ false
  unfolding should_stop_loss
  stop_loss-not-take_profit m now p avg ratio rate target halved stop = elim (le_total p avg) [
    | inl below ↦ no_profit_below m now p avg ratio target halved below
    | inr above ↦ ground (
      arith,
      loss_nonpos p avg above,
      not_le_of_lt (of_ℕ 0) m.limits.max_loss_rate,
      le_trans m.limits.max_loss_rate ((avg ⊖ p) ⊘ avg) (of_ℕ 0),
    )
  ]

  -- A breakeven stop is never a price at which a profit is taken.
  pub breakeven-not-take_profit :
      (m : RiskManager F) (now : Time) (p avg peak : F) (ratio : Option F)
      → (of_ℕ 0 ≺ or_default ratio m.limits.take_profit_ratio)
      → (of_ℕ 0 ≺ or_default ratio m.limits.take_profit_ratio ⊗ half)
      → should_breakeven_stop m p avg peak ≡ true
      → should_take_profit m now p avg ratio ≡ false
  unfolding should_breakeven_stop
  breakeven-not-take_profit m now p avg peak ratio target halved stop =
      no_profit_below m now p avg ratio target halved (ground arith)

  -- Where `check_max_loss` reports a loss over the limit, the position is stopped out.
  pub check_max_loss-stop_loss :
      (m : RiskManager F) (p avg : F)
      → check_max_loss m p avg ≡ ok true
      → should_stop_loss m p avg ≡ true
  unfolding check_max_loss should_stop_loss
  check_max_loss-stop_loss m p avg h = ground (
    arith,
    le_total m.limits.max_loss_rate ((avg ⊖ p) ⊘ avg),
    lt-eq-not_le m.limits.max_loss_rate ((avg ⊖ p) ⊘ avg),
  )

  two_pos : ◌≺◌ {F = F} (of_ℕ 0) (of_ℕ 2)
  two_pos = ground (
    arith,
    of_ℤ_mono (pos 1) (pos 2) (omega arith),
    le_trans (of_ℕ 1) (of_ℕ 2) (of_ℕ 0),
    zero-lt-one,
    lt-eq-not_le (of_ℕ 0) (of_ℕ 2),
    lt-eq-not_le (of_ℕ 0) (of_ℕ 1),
  )

  half_bounds : (of_ℕ {F = F} 0 ≼ half) × (half ≼ of_ℕ {F = F} 1)
  half_bounds =
      let two : ◌≺◌ {F = F} (of_ℕ 0) (of_ℕ 2) = two_pos in
      let one : ◌≼◌ {F = F} (of_ℕ 0) (of_ℕ 1) = of_ℤ_mono (pos 0) (pos 1) (omega arith) in
      let up : ◌≼◌ {F = F} (of_ℕ 1) (of_ℕ 2) = of_ℤ_mono (pos 1) (pos 2) (omega arith) in
      (
        le_trans (of_ℕ 0) (of_ℕ 0 ⊘ of_ℕ 2) half (zero_div (of_ℕ 2) two).1
            (div_mono (of_ℕ 0) (of_ℕ 1) (of_ℕ 2) two one),
        le_trans half (of_ℕ 2 ⊘ of_ℕ 2) (of_ℕ 1) (div_mono (of_ℕ 1) (of_ℕ 2) (of_ℕ 2) two up)
            (div_self (of_ℕ 2) two),
      )

  -- Near the close no higher profit is asked for than before: what is sold for a profit early in
  -- the day is also sold at the same price near the close, where the target is not negative.
  pub take_profit-near_close :
      (m : RiskManager F) (early late : Time) (p avg : F) (ratio : Option F)
      → of_ℕ 0 ≼ or_default ratio m.limits.take_profit_ratio
      → is_near_market_close m late ≡ true
      → should_take_profit m early p avg ratio ≡ true
      → should_take_profit m late p avg ratio ≡ true
  unfolding should_take_profit
  take_profit-near_close m early late p avg ratio target near take =
      let t = or_default ratio m.limits.take_profit_ratio in
      let lower : t ⊗ half ≼ t =
        le_trans (t ⊗ half) (t ⊗ of_ℕ 1) t
          (mul_mono t t half (of_ℕ 1) target (le_refl t) half_bounds.0 half_bounds.1)
          (mul_one t).0 in
      ground (arith, lower, le_trans (t ⊗ half) t ((p ⊖ avg) ⊘ avg))

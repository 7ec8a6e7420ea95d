-- ===== src/Strategy/Indicators/Bollinger.antt =====
-- src/strategy/bollinger.py, BollingerBandStrategy.
use kis_autotrader.Common.{Option, none, some, List, if◌then◌else◌}
use kis_autotrader.Common.Int.{ℤ, pos, ◌+ℤ◌}
use kis_autotrader.Float.{Float, of_ℕ, ◌⊕◌, ◌⊖◌, ◌⊗◌, ◌⊘◌, min_f, max_f}
use kis_autotrader.Python.{Result, ◌>>=◌}
use kis_autotrader.Strategy.{SignalType, Signal, mk_signal}
use kis_autotrader.Strategy.Indicators.{
  MarketData, last_price, hold_signal, with_rows, with_close, int_or,
}

pub record BollingerBandStrategy (F : Type 0) : Type 0 where
  pub period : ℤ
  pub num_std : F

-- The last values of `rolling(period).mean()` and `rolling(period).std()`
pub record Deviation (F : Type 0) : Type 0 where
  pub sma : Option F
  pub std : Option F

module _ {F : Type 0} ⦃N : Float F⦄ where
  -- `num_std or setting`
  abbrev pub float_or : Option F → F → F
  float_or none d = d
  float_or (some x) d = if N.eq x (of_ℕ 0) then d else x

  -- `BollingerBandStrategy.__init__`
  abbrev pub init : Option ℤ → Option F → BollingerBandStrategy F → BollingerBandStrategy F
  init period num_std settings = record {
    period = int_or period settings.period;
    num_std = float_or num_std settings.num_std;
  }

  abbrev pub half : F
  half = of_ℕ 1 ⊘ of_ℕ 2

  abbrev pub tenth : F
  tenth = of_ℕ 1 ⊘ of_ℕ 10

  -- Where the price stands between the bands
  abbrev pub percent_b : F → F → F → F
  percent_b price lower upper =
      if N.lt (of_ℕ 0) (upper ⊖ lower) then (price ⊖ lower) ⊘ (upper ⊖ lower) else half

  unfoldable pub breakout : F → F → F → F → Result (Signal F)
  breakout price sma lower upper =
      let b = percent_b price lower upper in
      if N.le price lower
      then mk_signal SignalType.buy (max_f (min_f (of_ℕ 1 ⊖ b) (of_ℕ 1)) tenth) (some sma) none
      else if N.le upper price
      then mk_signal SignalType.sell (max_f (min_f (b ⊖ of_ℕ 1 ⊕ half) (of_ℕ 1)) tenth) (some sma)
          none
      else hold_signal

  abbrev pub decide : BollingerBandStrategy F → F → Deviation F → Result (Signal F)
  decide s price v = elim v.sma [
    | none ↦ hold_signal
    | some sma ↦ elim v.std [
      | none ↦ hold_signal
      | some std ↦ breakout price sma (sma ⊖ s.num_std ⊗ std) (sma ⊕ s.num_std ⊗ std)
    ]
  ]

  unfoldable pub analyze :
      BollingerBandStrategy F → (List F → Deviation F) → MarketData F → Result (Signal F)
  analyze s deviation d =
      with_rows (s.period +ℤ pos 1) d
        (with_close d (last_price d.closes >>= λ price. decide s price (deviation d.closes)))

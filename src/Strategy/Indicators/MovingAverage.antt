-- ===== src/Strategy/Indicators/MovingAverage.antt =====
-- src/strategy/moving_average.py, MovingAverageStrategy.
use kis_autotrader.Common.{Option, none, some, List, ◌&&◌, ◌||◌, not, if◌then◌else◌}
use kis_autotrader.Common.Int.{ℤ, pos, ◌+ℤ◌, leb_ℤ, ltb_ℤ}
use kis_autotrader.Float.{Float, of_ℕ, ◌⊖◌, ◌⊘◌, min_f, abs_f}
use kis_autotrader.Python.{Result, ok, err, strategy_error, or_default, divide, ◌>>=◌}
use kis_autotrader.Strategy.{SignalType, Signal, mk_signal}
use kis_autotrader.Strategy.Indicators.{
  MarketData, validate_data, last_price, hold_signal, with_rows,
}

pub record MovingAverageStrategy (F : Type 0) : Type 0 where
  pub short_period : ℤ
  pub long_period : ℤ
  pub max_divergence : F

-- The last two values of `rolling(window).mean()`, for both periods.
pub record Averages (F : Type 0) : Type 0 where
  pub current_short : Option F
  pub current_long : Option F
  pub prev_short : Option F
  pub prev_long : Option F

-- `MovingAverageStrategy.__init__`, with the settings' periods behind the arguments.
unfoldable pub init :
    {F : Type 0} → Option ℤ → Option ℤ → ℤ → ℤ → F → Result (MovingAverageStrategy F)
init short_period long_period setting_short setting_long max_divergence =
    let short = or_default short_period setting_short in
    let long = or_default long_period setting_long in
    if leb_ℤ long short
    then err strategy_error
    else if ltb_ℤ short (pos 1) || ltb_ℤ long (pos 1)
    then err strategy_error
    else ok (record { short_period = short; long_period = long; max_divergence = max_divergence })

module _ {F : Type 0} ⦃N : Float F⦄ where
  -- The rate of divergence over the largest one; the quotients of numpy's numbers do not raise.
  abbrev pub confidence_of : F → F → F → Result F
  confidence_of max_divergence short long =
      (if not (N.eq long (of_ℕ 0))
        then ok (abs_f (short ⊖ long) ⊘ long ⊘ max_divergence)
        else divide (of_ℕ 0) max_divergence)
      >>= λ rate. ok (min_f rate (of_ℕ 1))

  -- The crossing of the averages
  unfoldable pub crossing : F → F → F → F → F → F → Result (Signal F)
  crossing confidence price short long prev_short prev_long =
      if N.le prev_short prev_long && N.lt long short
      then mk_signal SignalType.buy confidence (some price) none
      else if N.le prev_long prev_short && N.lt short long
      then mk_signal SignalType.sell confidence (some price) none
      else hold_signal

  -- The signal where no average is NaN
  unfoldable pub numbers_signal :
      MovingAverageStrategy F → List F → F → F → F → F → Result (Signal F)
  unfolding crossing
  numbers_signal s closes short long prev_short prev_long =
      confidence_of s.max_divergence short long >>= λ confidence.
      last_price closes >>= λ price. crossing confidence price short long prev_short prev_long

  abbrev pub decide : MovingAverageStrategy F → List F → Averages F → Result (Signal F)
  decide s closes a = elim a.current_short [
    | none ↦ hold_signal
    | some short ↦ elim a.current_long [
      | none ↦ hold_signal
      | some long ↦ elim a.prev_short [
        | none ↦ hold_signal
        | some prev_short ↦ elim a.prev_long [
          | none ↦ hold_signal
          | some prev_long ↦ numbers_signal s closes short long prev_short prev_long
        ]
      ]
    ]
  ]

  unfoldable pub analyze :
      MovingAverageStrategy F → (List F → Averages F) → MarketData F → Result (Signal F)
  analyze s averages d =
      validate_data d (with_rows (s.long_period +ℤ pos 1) d (decide s d.closes (averages d.closes)))

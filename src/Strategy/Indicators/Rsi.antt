-- ===== src/Strategy/Indicators/Rsi.antt =====
-- src/strategy/rsi.py, RSIStrategy; the smoothed index of _calculate_rsi is an argument.
use kis_autotrader.Common.{Option, none, some, List, ◌&&◌, not, if◌then◌else◌}
use kis_autotrader.Common.Int.{ℤ, pos, ◌+ℤ◌, ltb_ℤ}
use kis_autotrader.Float.{Float, of_ℕ, ◌⊖◌, ◌⊘◌, min_f, max_f}
use kis_autotrader.Python.{Result, ok, err, strategy_error, or_default, ◌>>=◌}
use kis_autotrader.Strategy.{SignalType, Signal, mk_signal}
use kis_autotrader.Strategy.Indicators.{
  MarketData, validate_data, last_price, hold_signal, with_rows,
}

pub record RsiStrategy (F : Type 0) : Type 0 where
  pub period : ℤ
  pub oversold : F
  pub overbought : F

module _ {F : Type 0} ⦃N : Float F⦄ where
  -- `RSIStrategy.__init__`, with the settings behind the arguments.
  unfoldable pub init : Option ℤ → Option F → Option F → RsiStrategy F → Result (RsiStrategy F)
  init period oversold overbought settings =
      let period' = or_default period settings.period in
      let low = or_default oversold settings.oversold in
      let high = or_default overbought settings.overbought in
      if ltb_ℤ period' (pos 1)
      then err strategy_error
      else if not (N.lt (of_ℕ 0) low && N.lt low high && N.lt high (of_ℕ 100))
      then err strategy_error
      else ok (record { period = period'; oversold = low; overbought = high })

  -- `_calculate_oversold_confidence`
  abbrev pub oversold_confidence : RsiStrategy F → F → F
  oversold_confidence s rsi = min_f (max_f ((s.oversold ⊖ rsi) ⊘ s.oversold) (of_ℕ 0)) (of_ℕ 1)

  -- `_calculate_overbought_confidence`
  abbrev pub overbought_confidence : RsiStrategy F → F → F
  overbought_confidence s rsi =
      min_f (max_f ((rsi ⊖ s.overbought) ⊘ (of_ℕ 100 ⊖ s.overbought)) (of_ℕ 0)) (of_ℕ 1)

  unfoldable pub decide : RsiStrategy F → F → Option F → Result (Signal F)
  decide s price none = hold_signal
  decide s price (some rsi) =
      if N.lt rsi s.oversold
      then mk_signal SignalType.buy (oversold_confidence s rsi) (some price) none
      else if N.lt s.overbought rsi
      then mk_signal SignalType.sell (overbought_confidence s rsi) (some price) none
      else hold_signal

  unfoldable pub analyze : RsiStrategy F → (List F → Option F) → MarketData F → Result (Signal F)
  analyze s last_rsi d = validate_data d (
      with_rows (s.period +ℤ pos 1) d
        (last_price d.closes >>= λ price. decide s price (last_rsi d.closes)))

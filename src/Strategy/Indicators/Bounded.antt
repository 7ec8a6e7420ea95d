-- ===== src/Strategy/Indicators/Bounded.antt =====
-- On a frame with closing prices every strategy returns a signal, with a confidence from 0 to 1.
use kis_autotrader.Common.{◌≡◌, ap, ◌∙◌, true, Option, some, List, ◌∷◌}
use kis_autotrader.Common.Int.{ℤ, pos, ltb_ℤ, ◌+ℤ◌}
use kis_autotrader.Float.{Float, IsRounded, of_ℕ, ◌⊗◌, ◌≺◌}
use kis_autotrader.Python.{Result, ok}
use kis_autotrader.Strategy.{Signal}
use kis_autotrader.Strategy.Indicators.{
  MarketData, rows, last_price, with_rows, with_close, validate_data,
}
use kis_autotrader.Strategy.Indicators.MovingAverage as MovingAverage
use kis_autotrader.Strategy.Indicators.Rsi as Rsi
use kis_autotrader.Strategy.Indicators.Macd as Macd
use kis_autotrader.Strategy.Indicators.Bollinger as Bollinger
use kis_autotrader.Ensemble.Confidence.{Yields, Yields-if, >>=-Yields}
use kis_autotrader.Strategy.Indicators.Decided.{
  hold-Yields, last_price-ok, Rsi-Yields, MovingAverage_decide-Yields, Macd_decide-Yields,
  Bollinger_decide-Yields,
}

-- The frame has closing prices.
pub record HasPrices {F : Type 0} (d : MarketData F) (c : F) (cs : List F) : Type 0 where
  pub column : d.has_close ≡ true
  pub prices : d.closes ≡ c ∷ cs

module _ {F : Type 0} ⦃N : Float F⦄ (laws : IsRounded F) where
  with_rows-Yields :
      (required : ℤ) (d : MarketData F) (rest : Result (Signal F))
      → Yields rest
      → Yields (with_rows required d rest)
  with_rows-Yields required d rest h =
      Yields-if (ltb_ℤ (rows d) required) _ _ (λ e. hold-Yields laws) (λ e. h)

  validate-Yields :
      (d : MarketData F) (c : F) (cs : List F) (rest : Result (Signal F))
      → HasPrices d c cs
      → Yields rest
      → Yields (validate_data d rest)
  validate-Yields d c cs rest h y = rw (h.prices, h.column) y

  with_close-Yields :
      (d : MarketData F) (rest : Result (Signal F))
      → d.has_close ≡ true
      → Yields rest
      → Yields (with_close d rest)
  with_close-Yields d rest e h = rw e h

  -- Each strategy, on a frame that has prices.
  module _ (d : MarketData F) (c : F) (cs : List F) (h : HasPrices d c cs) where
    price : F
    price = (last_price-ok laws c cs).0

    price_lem : last_price d.closes ≡ ok price
    unfolding price
    price_lem = ap last_price h.prices ∙ (last_price-ok laws c cs).1

    pub MovingAverage_analyze-Yields :
        (s : MovingAverage.MovingAverageStrategy F) (averages : List F → MovingAverage.Averages F)
        → of_ℕ 0 ≺ s.max_divergence
        → ((l : F) → (averages d.closes).current_long ≡ some l → of_ℕ 0 ≺ l)
        → Yields (MovingAverage.analyze s averages d)
    unfolding MovingAverage.analyze
    MovingAverage_analyze-Yields s averages p l = validate-Yields d c cs _ h (
        with_rows-Yields (s.long_period +ℤ pos 1) d _
          (MovingAverage_decide-Yields laws s d.closes price (averages d.closes) p price_lem l))

    pub Rsi_analyze-Yields :
        (s : Rsi.RsiStrategy F) (last_rsi : List F → Option F) → Yields (Rsi.analyze s last_rsi d)
    unfolding Rsi.analyze
    Rsi_analyze-Yields s last_rsi = validate-Yields d c cs _ h (
        with_rows-Yields (s.period +ℤ pos 1) d _
          (>>=-Yields price _ _ price_lem (Rsi-Yields laws s price (last_rsi d.closes))))

    pub Macd_analyze-Yields :
        (s : Macd.MacdStrategy) (lines : List F → Macd.Lines F)
        → ((p : F) → last_price d.closes ≡ ok p → of_ℕ 0 ≺ p ⊗ Macd.hundredth)
        → Yields (Macd.analyze s lines d)
    unfolding Macd.analyze
    Macd_analyze-Yields s lines p = with_rows-Yields _ d _ (
        with_close-Yields d _ h.column (
          >>=-Yields price _ _ price_lem
            (Macd_decide-Yields laws price (lines d.closes) (p price price_lem))))

    pub Bollinger_analyze-Yields :
        (s : Bollinger.BollingerBandStrategy F) (deviation : List F → Bollinger.Deviation F)
        → Yields (Bollinger.analyze s deviation d)
    unfolding Bollinger.analyze
    Bollinger_analyze-Yields s deviation = with_rows-Yields _ d _ (
        with_close-Yields d _ h.column (
          >>=-Yields price _ _ price_lem
            (Bollinger_decide-Yields laws s price (deviation d.closes))))

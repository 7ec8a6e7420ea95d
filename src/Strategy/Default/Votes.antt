-- ===== src/Strategy/Default/Votes.antt =====
-- The default ensemble always answers.
use kis_autotrader.Common.{◌≡◌, Bool, some, List, [], ◌∷◌}
use kis_autotrader.Float.{Float, IsRounded, of_ℕ, ◌⊗◌, ◌≼◌, ◌≺◌}
use kis_autotrader.Python.{ok}
use kis_autotrader.Strategy.{Signal}
use kis_autotrader.Strategy.Indicators.{MarketData, last_price}
use kis_autotrader.Strategy.Indicators.Macd as Macd
use kis_autotrader.Strategy.Indicators.Bounded.{
  HasPrices, MovingAverage_analyze-Yields, Rsi_analyze-Yields, Macd_analyze-Yields,
  Bollinger_analyze-Yields,
}
use kis_autotrader.Strategy.Default.{Strategies, Pandas, create_default, analyze}
use kis_autotrader.Ensemble.{weighted_vote}
use kis_autotrader.Ensemble as EnsembleStrategy
use kis_autotrader.Ensemble.Confidence.{Yields-ok}
use kis_autotrader.Ensemble.Total.{weighted_vote_bounds}

module _ {F : Type 0} ⦃N : Float F⦄ (laws : IsRounded F) where
  -- The default ensemble returns a signal, with a confidence from 0 to 1, on every frame that has
  -- closing prices, however short, whatever pandas computes, with NaN or without, where the largest
  -- divergence, the long average and a hundredth of the last price are positive.
  pub analyze-create_default :
      (solo : F) (trend : Bool) (s : Strategies F) (pandas : Pandas F) (d : MarketData F) (c : F)
      (cs : List F)
      → HasPrices d c cs
      → of_ℕ 0 ≺ s.moving_average.max_divergence
      → ((l : F) → (pandas.averages d.closes).current_long ≡ some l → of_ℕ 0 ≺ l)
      → ((p : F) → last_price d.closes ≡ ok p → of_ℕ 0 ≺ p ⊗ Macd.hundredth)
      → (signal : Signal F) × (analyze (create_default solo trend) s pandas d ≡ ok signal)
        × (of_ℕ 0 ≼ signal.confidence)
        × (signal.confidence ≼ of_ℕ 1)
  unfolding analyze EnsembleStrategy.analyze
  analyze-create_default solo trend s pandas d c cs h div long price =
      let (a, ea, a0, a1) =
        Yields-ok _
          (MovingAverage_analyze-Yields laws d c cs h s.moving_average pandas.averages div long) in
      let (b, eb, b0, b1) = Yields-ok _ (Rsi_analyze-Yields laws d c cs h s.rsi pandas.last_rsi) in
      let (m, em, m0, m1) =
        Yields-ok _ (Macd_analyze-Yields laws d c cs h s.macd pandas.lines price) in
      let (o, eo, o0, o1) =
        Yields-ok _ (Bollinger_analyze-Yields laws d c cs h s.bollinger pandas.deviation) in
      let (v, ev, v0, v1) =
        weighted_vote_bounds laws (create_default solo trend) (a ∷ b ∷ m ∷ o ∷ [])
          ((a0, a1), ((b0, b1), ((m0, m1), ((o0, o1), tt)))) in
      (v, rw (ea, eb, em, eo) ev, v0, v1)

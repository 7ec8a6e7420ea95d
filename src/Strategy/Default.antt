-- ===== src/Strategy/Default.antt =====
-- The ensemble of src/strategy/registry.py, StrategyRegistry.create_default, on one data frame. The
-- setting of its method is at the default, the weighted vote.
pub mod Votes
use kis_autotrader.Common.{Bool, true, false, Option, List, [], ◌∷◌}
use kis_autotrader.Float.{Float}
use kis_autotrader.Python.{Result, ok, ◌>>=◌}
use kis_autotrader.Strategy.{Signal}
use kis_autotrader.Strategy.Indicators.{MarketData}
use kis_autotrader.Strategy.Indicators.MovingAverage as MovingAverage
use kis_autotrader.Strategy.Indicators.Rsi as Rsi
use kis_autotrader.Strategy.Indicators.Macd as Macd
use kis_autotrader.Strategy.Indicators.Bollinger as Bollinger
use kis_autotrader.Ensemble.{SubStrategy, Ensemble}
use kis_autotrader.Ensemble as EnsembleStrategy

-- The four strategies, and what pandas computes for each of them.
pub record Strategies (F : Type 0) : Type 0 where
  pub moving_average : MovingAverage.MovingAverageStrategy F
  pub rsi : Rsi.RsiStrategy F
  pub macd : Macd.MacdStrategy
  pub bollinger : Bollinger.BollingerBandStrategy F

pub record Pandas (F : Type 0) : Type 0 where
  pub averages : List F → MovingAverage.Averages F
  pub last_rsi : List F → Option F
  pub lines : List F → Macd.Lines F
  pub deviation : List F → Bollinger.Deviation F

-- The signals of the four on one frame.
pub record Signals (F : Type 0) : Type 0 where
  pub of_moving_average : Signal F
  pub of_rsi : Signal F
  pub of_macd : Signal F
  pub of_bollinger : Signal F

module _ {F : Type 0} where
  abbrev pub create_default : F → Bool → Ensemble F (Signals F)
  create_default solo_buy_min_confidence trend_filter_enabled = record {
    strategies =
        record {
          name = "moving_average";
          is_trend_following = true;
          analyze = λ (s : Signals F). s.of_moving_average;
        }
        ∷ record { name = "rsi"; is_trend_following = false; analyze = λ (s : Signals F). s.of_rsi }
        ∷ record {
          name = "macd";
          is_trend_following = true;
          analyze = λ (s : Signals F). s.of_macd;
        }
        ∷ record {
          name = "bollinger";
          is_trend_following = false;
          analyze = λ (s : Signals F). s.of_bollinger;
        }
        ∷ [];
    method = "weighted";
    strategy_weights = [];
    solo_buy_min_confidence = solo_buy_min_confidence;
    trend_filter_enabled = trend_filter_enabled;
  }

module _ {F : Type 0} ⦃N : Float F⦄ where
  -- `[s.analyze(market_data) for s in strategies]`: an exception of one strategy ends it.
  unfoldable pub signals_of : Strategies F → Pandas F → MarketData F → Result (Signals F)
  signals_of s pandas d = MovingAverage.analyze s.moving_average pandas.averages d >>= λ a.
      Rsi.analyze s.rsi pandas.last_rsi d >>= λ b. Macd.analyze s.macd pandas.lines d >>= λ c.
      Bollinger.analyze s.bollinger pandas.deviation d >>= λ e.
      ok (record { of_moving_average = a; of_rsi = b; of_macd = c; of_bollinger = e })

  unfoldable pub analyze :
      Ensemble F (Signals F) → Strategies F → Pandas F → MarketData F → Result (Signal F)
  unfolding signals_of
  analyze e s pandas d = signals_of s pandas d >>= λ signals. EnsembleStrategy.analyze e signals

-- ===== src/Tests/Strategy.antt =====
-- src/strategy: the default ensemble on four closing prices, and a selector from settings that name
-- a strategy that is not there.
use Prim.Native.String.{String}
use kis_autotrader.Common.{ℕ, ◌≡◌, refl, true, false, some, none, [], ◌∷◌, arith}
use kis_autotrader.Common.Int.{pos, ◌*ℤ◌}
use kis_autotrader.Common.Dict.{lookup, put}
use kis_autotrader.Float.{of_ℕ, ◌≼◌}
use kis_autotrader.Float.Milli.{Milli, milli_float, Milli-IsRounded}
use kis_autotrader.Python.{ok}
use kis_autotrader.Strategy.{Signal}
use kis_autotrader.Strategy.Indicators.{MarketData}
use kis_autotrader.Strategy.Default.{Strategies, Pandas, create_default, analyze}
use kis_autotrader.Strategy.Default.Votes.{analyze-create_default}
use kis_autotrader.Strategy.Registry.{
  StrategyRegistry, StrategySelector, from_config, get_strategy, get, has, init, put_all,
}
use kis_autotrader.Strategy.Registry.Served.{sets, removes, after_changes, from_config-get_strategy}

abbrev strategies : Strategies Milli
strategies = record {
  moving_average = record { short_period = pos 1; long_period = pos 2; max_divergence = pos 50 };
  rsi = record { period = pos 2; oversold = pos 30000; overbought = pos 70000 };
  macd = record { fast = pos 1; slow = pos 2; signal = pos 1 };
  bollinger = record { period = pos 3; num_std = pos 2000 };
}

abbrev pandas : Pandas Milli
pandas = record {
  averages = λ closes. record {
    current_short = some (pos 110000);
    current_long = some (pos 105000);
    prev_short = some (pos 100000);
    prev_long = some (pos 100000);
  };
  last_rsi = λ closes. some (pos 75000);
  lines = λ closes. record {
    current_hist = some (pos 2000);
    prev_hist = some (pos 0);
    current_macd = some (pos 3000);
    current_signal = none;
  };
  deviation = λ closes. record { sma = some (pos 103000); std = some (pos 2000) };
}

abbrev frame : MarketData Milli
frame = record { has_close = true; closes = pos 100000 ∷ pos 100000 ∷ pos 100000 ∷ pos 110000 ∷ [] }

analyze-create_default_example :
    (signal : Signal Milli) × (analyze (create_default (pos 700) false) strategies pandas frame
      ≡ ok signal)
    × (of_ℕ 0 ≼ signal.confidence)
    × (signal.confidence ≼ of_ℕ 1)
unfolding milli_float ◌*ℤ◌
analyze-create_default_example =
    analyze-create_default Milli-IsRounded (pos 700) false strategies pandas frame (pos 100000)
      (pos 100000 ∷ pos 100000 ∷ pos 110000 ∷ []) (record { column = refl; prices = refl }) refl
      (λ l e. ground (arith, e)) (λ p e. ground (arith, e))

-- A name is taken as it is.
abbrev as_is : String → String
as_is name = name

abbrev registry : StrategyRegistry ℕ
registry = record { strategies = ("rsi", 1) ∷ ("ensemble", 4) ∷ [] }

abbrev selector : StrategySelector ℕ
selector = record {
  registry = registry;
  default_name = "ensemble";
  mappings = ("000660", "rsi") ∷ [];
}

from_config-get_strategy_example :
    (x : ℕ) × (get_strategy as_is "005930"
        (after_changes as_is (sets "005930" "macd" ∷ removes "000660" ∷ []) selector)
      ≡ ok x)
unfolding from_config get has init put_all lookup put
from_config-get_strategy_example =
    from_config-get_strategy as_is (λ n. refl) registry "none"
      (("000660", "rsi") ∷ ("035720", "macd") ∷ []) selector
      (sets "005930" "macd" ∷ removes "000660" ∷ []) "005930" refl

-- ===== src/Tests/Voting.antt =====
-- src/strategy/ensemble.py: two strategies on a number.
use kis_autotrader.Common.{◌≤◌, ◌≡◌, ◌⊎◌, refl, true, false, none, List, [], ◌∷◌, length}
use kis_autotrader.Common.Int.{ℤ, pos, ◌+ℤ◌, ◌-ℤ◌, ◌*ℤ◌}
use kis_autotrader.Float.{of_ℕ, ◌≼◌}
use kis_autotrader.Float.Milli.{Milli, milli_float, Milli-IsRounded}
use kis_autotrader.Python.{ok}
use kis_autotrader.Strategy.{SignalType, Signal, mk_signal}
use kis_autotrader.Ensemble.{SubStrategy, Ensemble, votes, trend_backs, weighted_vote}
use kis_autotrader.Ensemble.Total.{weighted_vote_bounds}
use kis_autotrader.Ensemble.Winners.{weighted_vote-buy}

abbrev signal : SignalType → ℤ → Signal Milli
signal t c = record { signal_type = t; confidence = c; target_price = none; stop_loss_price = none }

abbrev strategy : SubStrategy Milli ℤ
strategy = record {
  name = "ma_crossover";
  is_trend_following = true;
  analyze = λ c. signal SignalType.buy c;
}

abbrev ensemble : Ensemble Milli ℤ
ensemble = record {
  strategies = strategy ∷ strategy ∷ [];
  method = "weighted";
  strategy_weights = [];
  solo_buy_min_confidence = pos 600;
  trend_filter_enabled = true;
}

abbrev buys : List (Signal Milli)
buys = signal SignalType.buy (pos 700) ∷ signal SignalType.hold (pos 0) ∷ []

abbrev sells : List (Signal Milli)
sells = signal SignalType.sell (pos 700) ∷ signal SignalType.sell (pos 500) ∷ []

weighted_vote_bounds_example :
    (s : Signal Milli) × (weighted_vote ensemble buys ≡ ok s)
    × (of_ℕ {F = Milli} 0 ≼ s.confidence)
    × (s.confidence ≼ of_ℕ {F = Milli} 1)
unfolding milli_float ◌*ℤ◌
weighted_vote_bounds_example =
    weighted_vote_bounds Milli-IsRounded ensemble buys ((refl, refl), ((refl, refl), tt))

weighted_vote-buy_example :
    (2 ≤ length (votes SignalType.buy buys))
    ⊎ ((pos 600 ≼ pos 700) × ((true ≡ false) ⊎ (trend_backs ensemble.strategies buys ≡ true)))
unfolding weighted_vote mk_signal milli_float ◌+ℤ◌ ◌-ℤ◌ ◌*ℤ◌
weighted_vote-buy_example =
    weighted_vote-buy ensemble buys (signal SignalType.buy (pos 700)) refl refl

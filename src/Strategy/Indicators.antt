-- ===== src/Strategy/Indicators.antt =====
-- The strategies on indicators: what they share. The averages and deviations over a series of prices
-- are computed by pandas; what it returns for the closing prices is an argument, in which none
-- stands for NaN. The closing prices themselves are numbers.
pub mod MovingAverage
pub mod Rsi
pub mod Macd
pub mod Bollinger
pub mod Decided
pub mod Bounded
use kis_autotrader.Common.{
  ℕ, ◌==◌, Bool, true, false, not, ◌||◌, Option, none, some, List, [], ◌∷◌, length, if◌then◌else◌,
}
use kis_autotrader.Common.Int.{ℤ, pos, negsuc, ltb_ℤ}
use kis_autotrader.Float.{Float, of_ℕ}
use kis_autotrader.Python.{Result, ok, err, index_error, key_error, strategy_error}
use kis_autotrader.Strategy.{SignalType, Signal, mk_signal}

-- A data frame, as far as the strategies read it: the column of closing prices, if it is there.
pub record MarketData (F : Type 0) : Type 0 where
  pub has_close : Bool
  pub closes : List F

module _ {F : Type 0} where
  abbrev pub rows : MarketData F → ℤ
  rows d = pos (length d.closes)

  -- `_validate_data`
  abbrev pub validate_data : {A : Type 0} → MarketData F → Result A → Result A
  validate_data d rest = elim d.closes [
    | [] ↦ err strategy_error
    | c ∷ cs ↦ if not d.has_close then err strategy_error else rest
  ]

  -- `close.iloc[-1]`
  abbrev pub last_price : List F → Result F
  last_price [] = err index_error
  last_price (c ∷ []) = ok c
  last_price (c ∷ d ∷ ds) = last_price (d ∷ ds)

module _ {F : Type 0} ⦃N : Float F⦄ where
  abbrev pub hold_signal : Result (Signal F)
  hold_signal = mk_signal SignalType.hold (of_ℕ 0) none none

  -- The HOLD where there are too few rows
  abbrev pub with_rows : ℤ → MarketData F → Result (Signal F) → Result (Signal F)
  with_rows required d rest = if ltb_ℤ (rows d) required then hold_signal else rest

-- `market_data["close"]`
abbrev pub with_close : {F A : Type 0} → MarketData F → Result A → Result A
with_close d rest = if d.has_close then rest else err key_error

-- `period or setting`
abbrev pub int_or : Option ℤ → ℤ → ℤ
int_or none d = d
int_or (some n) d = elim n [ pos k ↦ if k == 0 then d else pos k | negsuc k ↦ negsuc k ]

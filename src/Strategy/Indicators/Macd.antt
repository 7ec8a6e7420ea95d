-- ===== src/Strategy/Indicators/Macd.antt =====
-- src/strategy/macd.py, MACDStrategy.
use kis_autotrader.Common.{Option, none, some, List, ◌&&◌, if◌then◌else◌}
use kis_autotrader.Common.Int.{ℤ, pos, ◌+ℤ◌}
use kis_autotrader.Float.{Float, of_ℕ, ◌⊗◌, ◌⊘◌, min_f, abs_f}
use kis_autotrader.Python.{Result, ok, divide, ◌>>=◌}
use kis_autotrader.Strategy.{SignalType, Signal, mk_signal}
use kis_autotrader.Strategy.Indicators.{
  MarketData, last_price, hold_signal, with_rows, with_close, int_or,
}

pub record MacdStrategy : Type 0 where
  pub fast : ℤ
  pub slow : ℤ
  pub signal : ℤ

-- `MACDStrategy.__init__`: an argument of None or 0 stands for the setting.
abbrev pub init : Option ℤ → Option ℤ → Option ℤ → MacdStrategy → MacdStrategy
init fast slow signal settings = record {
  fast = int_or fast settings.fast;
  slow = int_or slow settings.slow;
  signal = int_or signal settings.signal;
}

-- The last value of the histogram and the one before it, and the last MACD and signal lines.
pub record Lines (F : Type 0) : Type 0 where
  pub current_hist : Option F
  pub prev_hist : Option F
  pub current_macd : Option F
  pub current_signal : Option F

module _ {F : Type 0} ⦃N : Float F⦄ where
  abbrev pub hundredth : F
  hundredth = of_ℕ 1 ⊘ of_ℕ 100

  -- `min(abs(current_hist) / (current_price * 0.01), 1.0)`
  abbrev pub confidence_of : F → F → Result F
  confidence_of price hist =
      divide (abs_f hist) (price ⊗ hundredth) >>= λ share. ok (min_f share (of_ℕ 1))

  unfoldable pub crossing : F → F → F → Result (Signal F)
  crossing price hist prev_hist =
      if N.le prev_hist (of_ℕ 0) && N.lt (of_ℕ 0) hist
      then (confidence_of price hist >>= λ c. mk_signal SignalType.buy c (some price) none)
      else if N.le (of_ℕ 0) prev_hist && N.lt hist (of_ℕ 0)
      then (confidence_of price hist >>= λ c. mk_signal SignalType.sell c (some price) none)
      else hold_signal

  abbrev pub decide : F → Lines F → Result (Signal F)
  decide price l = elim l.current_hist [
    | none ↦ hold_signal
    | some hist ↦ elim l.prev_hist [
      | none ↦ hold_signal
      | some prev_hist ↦ elim l.current_macd [
        | none ↦ hold_signal
        | some macd ↦ elim l.current_signal [
          | none ↦ hold_signal
          | some signal ↦ crossing price hist prev_hist
        ]
      ]
    ]
  ]

  unfoldable pub analyze : MacdStrategy → (List F → Lines F) → MarketData F → Result (Signal F)
  analyze s lines d =
      with_rows (s.slow +ℤ s.signal +ℤ pos 1) d
        (with_close d (last_price d.closes >>= λ price. decide price (lines d.closes)))

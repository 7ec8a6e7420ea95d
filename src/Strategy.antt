-- ===== src/Strategy.antt =====
-- src/strategy/base.py: what a strategy returns.
pub mod Indicators
pub mod Default
pub mod Registry
use kis_autotrader.Common.{◌&&◌, Option, if◌then◌else◌}
use kis_autotrader.Float.{Float, of_ℕ}
use kis_autotrader.Python.{Result, ok, err, value_error}

pub data SignalType : Type 0 where
  buy sell hold : SignalType

-- Reason texts and meta data, which only reach the log, are left out.
pub record Signal (F : Type 0) : Type 0 where
  pub signal_type : SignalType
  pub confidence : F
  pub target_price : Option F
  pub stop_loss_price : Option F

module _ {F : Type 0} ⦃N : Float F⦄ where
  -- `Signal(...)`, with `__post_init__`
  unfoldable pub mk_signal : SignalType → F → Option F → Option F → Result (Signal F)
  mk_signal t c target stop =
      if N.le (of_ℕ 0) c && N.le c (of_ℕ 1)
      then ok (record {
        signal_type = t;
        confidence = c;
        target_price = target;
        stop_loss_price = stop;
      })
      else err value_error

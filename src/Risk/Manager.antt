-- ===== src/Risk/Manager.antt =====
-- The state of a RiskManager and its construction: limits from the arguments or the settings.
use Prim.Native.String.{String}
use kis_autotrader.Common.{ℕ, Bool, false, Option, none}
use kis_autotrader.Common.Int.{ℤ, pos}
use kis_autotrader.Float.{Float, of_ℕ}
use kis_autotrader.Python.{or_default}

-- The entries of `settings.trading` and `settings.strategy` that the class reads.
pub record Settings (F : Type 0) : Type 0 where
  pub max_loss_rate : F
  pub max_position_ratio : F
  pub daily_trade_limit : ℤ
  pub take_profit_ratio : F
  pub trailing_activation_ratio : F
  pub trailing_drawdown_ratio : F
  pub breakeven_activation_ratio : F
  pub stagnation_hours : F
  pub min_profitable_close : F
  pub market_close_loss_cut_rate : F
  pub min_confidence : F
  pub max_daily_drawdown : F
  pub max_consecutive_losses : ℤ
  pub max_daily_loss_abs : F
  pub market_close_cutoff_hour : ℕ
  pub market_close_cutoff_minute : ℕ

-- The arguments of `__init__`; the timezone only chooses which clock `now` is read from.
pub record Overrides (F : Type 0) : Type 0 where
  pub max_loss_rate : Option F
  pub max_position_ratio : Option F
  pub daily_trade_limit : Option ℤ
  pub take_profit_ratio : Option F
  pub trailing_activation_ratio : Option F
  pub trailing_drawdown_ratio : Option F
  pub breakeven_activation_ratio : Option F
  pub stagnation_hours : Option F
  pub min_profitable_close : Option F
  pub market_close_loss_cut_rate : Option F
  pub max_daily_loss_abs : Option F
  pub min_confidence : Option F

-- `limits` are the fields that no method writes, the others the portfolio's state.
pub record RiskManager (F : Type 0) : Type 0 where
  pub limits : Settings F
  pub daily_peak_pnl : F
  pub daily_cumulative_pnl : F
  pub consecutive_losses : ℤ
  pub portfolio_halted : Bool
  pub halt_reason : Option String

module _ {F : Type 0} ⦃N : Float F⦄ where
  abbrev choose_limits : Settings F → Overrides F → Settings F
  choose_limits s o = record {
    max_loss_rate = or_default o.max_loss_rate s.max_loss_rate;
    max_position_ratio = or_default o.max_position_ratio s.max_position_ratio;
    daily_trade_limit = or_default o.daily_trade_limit s.daily_trade_limit;
    take_profit_ratio = or_default o.take_profit_ratio s.take_profit_ratio;
    trailing_activation_ratio = or_default o.trailing_activation_ratio s.trailing_activation_ratio;
    trailing_drawdown_ratio = or_default o.trailing_drawdown_ratio s.trailing_drawdown_ratio;
    breakeven_activation_ratio =
        or_default o.breakeven_activation_ratio s.breakeven_activation_ratio;
    stagnation_hours = or_default o.stagnation_hours s.stagnation_hours;
    min_profitable_close = or_default o.min_profitable_close s.min_profitable_close;
    market_close_loss_cut_rate =
        or_default o.market_close_loss_cut_rate s.market_close_loss_cut_rate;
    min_confidence = or_default o.min_confidence s.min_confidence;
    max_daily_drawdown = s.max_daily_drawdown;
    max_consecutive_losses = s.max_consecutive_losses;
    max_daily_loss_abs = or_default o.max_daily_loss_abs s.max_daily_loss_abs;
    market_close_cutoff_hour = s.market_close_cutoff_hour;
    market_close_cutoff_minute = s.market_close_cutoff_minute;
  }

  -- `RiskManager.__init__`
  unfoldable pub init : Settings F → Overrides F → RiskManager F
  init s o = record {
    limits = choose_limits s o;
    daily_peak_pnl = of_ℕ 0;
    daily_cumulative_pnl = of_ℕ 0;
    consecutive_losses = pos 0;
    portfolio_halted = false;
    halt_reason = none;
  }

-- ===== src/Trading.antt =====
-- src/engine.py, TradingEngine: its state, its settings, and what it asks of other systems. The
-- fields that only feed log lines and metrics are left out; `events` is the sequence of the day's
-- calls that leave the engine, to the broker and to the queue of the database's writes. The exchange
-- of an order, which only its cancellation reads, is left out too.
pub mod Orders
pub mod Execution
pub mod Held
pub mod Stock
pub mod Cycle
pub mod Calls
pub mod Ledger
use Prim.Native.String.{String}
use kis_autotrader.Common.{
  ℕ, suc, ◌+◌, ◌==◌, Bool, true, false, Option, none, some, List, [], ◌∷◌, ◌++◌, ◌≡◌, refl, ◌⊎◌,
  inl, inr, if◌then◌else◌,
}
use kis_autotrader.Common.Dict.{lookup, put}
use kis_autotrader.Common.Int.{ℤ}
use kis_autotrader.Float.{Float}
use kis_autotrader.Risk.Manager.{RiskManager}
use kis_autotrader.Risk.Exits.{Time}

pub data Side : Type 0 where
  buys sells : Side

pub Side-cases : (s : Side) → (s ≡ Side.buys) ⊎ (s ≡ Side.sells)
Side-cases Side.buys = inl refl
Side-cases Side.sells = inr refl

pub data SellReason : Type 0 where
  stop_loss take_profit strategy trailing_stop market_close breakeven stagnation : SellReason

pub record PendingOrder (F : Type 0) : Type 0 where
  pub order_no : String
  pub side : Side
  pub quantity : ℤ
  pub placed_cycle : ℕ
  pub stock_name : String
  pub qty_before : ℤ
  pub price : F
  pub avg_price : Option F
  pub signal_type : Option String

-- The payload of a `record_trade` task. The reason of a buy, a search in a text, is left out.
pub record Trade (F : Type 0) : Type 0 where
  pub stock_code : String
  pub trade_type : Side
  pub quantity : ℤ
  pub price : F
  pub traded_at : F
  pub cycle_number : ℕ
  pub sell_reason : Option SellReason
  pub signal_type : Option String
  pub profit_loss_pct : Option F
  pub profit_loss_amount : Option F

pub data Event (F : Type 0) : Type 0 where
  submitted : (side : Side) (code order_no : String) (quantity : ℤ) → Event F
  cancelled : (code order_no reason : String) → Event F
  recorded : Trade F → Event F
  outcome : (code label : String) → Event F

-- The entries of `settings` and of the market profile that the engine reads; `quantize` is
-- Decimal's rounding to the market's places.
pub record Config (F : Type 0) : Type 0 where
  pub is_overseas : Bool
  pub price_precision : ℕ
  pub quantize : ℕ → F → F
  pub min_price : F
  pub order_pending_timeout_cycles : ℕ
  pub reconcile_orphan_fills : Bool
  pub db_precheck_before_order : Bool
  pub trailing_stop_enabled : Bool
  pub max_daily_trades_per_stock : ℕ
  pub buy_cooldown_after_sell_min : F
  pub loss_rebuy_block_same_day : Bool
  pub interval_cycles : ℕ

-- The readings of the clock at a call: a time stamp in seconds, the date, and the time of day.
pub record Clock (F : Type 0) : Type 0 where
  pub now : F
  pub date : ℕ
  pub time : Time

pub record TradingEngine (F : Type 0) : Type 0 where
  pub risk : RiskManager F
  pub today_trade_count : ℕ
  pub today_buys_per_stock : List (String × ℕ)
  pub untradable_today : List String
  pub cycle_count : ℕ
  pub daily_limit_reached : Bool
  pub screened_codes : List String
  pub peak_prices : List (String × F)
  pub pending_orders : List (String × PendingOrder F)
  pub last_sell_at : List (String × F)
  pub loss_sell_dates : List (String × ℕ)
  pub held_since : List (String × F)
  pub risk_state_restored : Bool
  pub events : List (Event F)

-- `d.get(key, 0)`, and `d[key] = d.get(key, 0) + 1`
abbrev pub get_count : String → List (String × ℕ) → ℕ
get_count key d = elim (lookup key d) [ none ↦ 0 | some n ↦ n ]

abbrev pub increment : String → List (String × ℕ) → List (String × ℕ)
increment key d = put key (suc (get_count key d)) d

module _ {F : Type 0} where
  abbrev pub emit : Event F → TradingEngine F → TradingEngine F
  emit e t = record t { events = t.events ++ (e ∷ []) }

  abbrev pub buys_of : String → TradingEngine F → ℕ
  buys_of code t = get_count code t.today_buys_per_stock

  abbrev pub count_buy : String → TradingEngine F → TradingEngine F
  count_buy code t = record t { today_buys_per_stock = increment code t.today_buys_per_stock }

-- `_norm_price`
abbrev pub norm_price : {F : Type 0} ⦃N : Float F⦄ → Config F → F → F
norm_price ⦃N⦄ cfg value =
    if cfg.price_precision == 0
    then N.of_ℤ (N.to_int value)
    else cfg.quantize cfg.price_precision value

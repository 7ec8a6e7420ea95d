-- ===== src/Backtest/Broker.antt =====
-- src/backtest/broker.py, VirtualBroker. The positions are a dict, as an association list.
pub mod Solvent
pub mod Worth
use Prim.Native.String.{String}
use kis_autotrader.Common.{
  Bool, true, false, Option, none, some, List, [], ◌∷◌, ◌++◌, if◌then◌else◌,
}
use kis_autotrader.Common.Dict.{lookup, remove}
use kis_autotrader.Common.Int.{ℤ, pos, ◌-ℤ◌, leb_ℤ}
use kis_autotrader.Float.{Float, of_ℕ, ◌⊕◌, ◌⊖◌, ◌⊗◌, ◌⊘◌}
use kis_autotrader.Python.{Result, ok, ◌>>=◌, divide}

pub data TradeSide : Type 0 where
  buys sells : TradeSide

pub record BacktestConfig (F : Type 0) : Type 0 where
  pub initial_capital : ℤ
  pub commission_rate : F
  pub slippage_rate : F
  pub max_position_ratio : F
  pub max_loss_rate : F
  pub take_profit_ratio : F

pub record Position (F : Type 0) : Type 0 where
  pub stock_code : String
  pub quantity : ℤ
  pub avg_price : F
  pub entry_date : String

pub record TradeRecord (F : Type 0) : Type 0 where
  pub date : String
  pub stock_code : String
  pub side : TradeSide
  pub price : F
  pub quantity : ℤ
  pub commission : F
  pub profit_loss : F
  pub profit_rate : F

pub record VirtualBroker (F : Type 0) : Type 0 where
  pub config : BacktestConfig F
  pub cash : F
  pub positions : List (String × Position F)
  pub trade_history : List (TradeRecord F)

module _ {F : Type 0} ⦃N : Float F⦄ where
  -- `VirtualBroker.__init__`
  unfoldable pub init : BacktestConfig F → VirtualBroker F
  init config = record {
    config = config;
    cash = N.of_ℤ config.initial_capital;
    positions = [];
    trade_history = [];
  }

  -- The commission of an order, and its whole cost.
  abbrev pub commission_of : VirtualBroker F → F → ℤ → F
  commission_of b price quantity = price ⊗ N.of_ℤ quantity ⊗ b.config.commission_rate

  abbrev pub cost_of : VirtualBroker F → F → ℤ → F
  cost_of b price quantity = price ⊗ N.of_ℤ quantity ⊕ commission_of b price quantity

  -- The order of `quantity` shares at the adjusted price is filled.
  abbrev pub fill_buy :
      VirtualBroker F → String → F → String → ℤ → Option (TradeRecord F) × VirtualBroker F
  fill_buy b stock_code adjusted_price date quantity =
      let trade : TradeRecord F = record {
        date = date;
        stock_code = stock_code;
        side = TradeSide.buys;
        price = adjusted_price;
        quantity = quantity;
        commission = commission_of b adjusted_price quantity;
        profit_loss = of_ℕ 0;
        profit_rate = of_ℕ 0;
      } in
      (
        some trade,
        record b {
          cash = b.cash ⊖ cost_of b adjusted_price quantity;
          positions =
              b.positions
              ++ ((
                stock_code,
                record {
                  stock_code = stock_code;
                  quantity = quantity;
                  avg_price = adjusted_price;
                  entry_date = date;
                },
              )
                  ∷ []);
          trade_history = b.trade_history ++ (trade ∷ []);
        },
      )

  -- From the quantity on: too few, affordable, or one share fewer.
  abbrev pub try_buy :
      VirtualBroker F → String → F → String → ℤ → Option (TradeRecord F) × VirtualBroker F
  try_buy b stock_code adjusted_price date quantity =
      let fewer = quantity -ℤ pos 1 in
      if leb_ℤ quantity (pos 0)
      then (none, b)
      else if N.lt b.cash (cost_of b adjusted_price quantity)
      then (if leb_ℤ fewer (pos 0)
          then (none, b)
          else if N.lt b.cash (cost_of b adjusted_price fewer)
          then (none, b)
          else fill_buy b stock_code adjusted_price date fewer)
      else fill_buy b stock_code adjusted_price date quantity

  abbrev pub bought_price : VirtualBroker F → F → F
  bought_price b price = price ⊗ (of_ℕ 1 ⊕ b.config.slippage_rate)

  unfoldable pub buy :
      VirtualBroker F → String → F → String → Result (Option (TradeRecord F) × VirtualBroker F)
  unfolding ◌-ℤ◌
  buy b stock_code price date = elim (lookup stock_code b.positions) [
    | some _ ↦ ok (none, b)
    | none ↦ divide (b.cash ⊗ b.config.max_position_ratio) (bought_price b price) >>= λ shares.
        ok (try_buy b stock_code (bought_price b price) date (N.to_int shares))
  ]

  abbrev pub sold_price : VirtualBroker F → F → F
  sold_price b price = price ⊗ (of_ℕ 1 ⊖ b.config.slippage_rate)

  -- The sale of a position at the adjusted price, with its profit rate before the factor 100.
  abbrev pub fill_sell :
      VirtualBroker F
      → Position F
      → String
      → F
      → String
      → F
      → Option (TradeRecord F) × VirtualBroker F
  fill_sell b p stock_code adjusted_price date rate =
      let commission = commission_of b adjusted_price p.quantity in
      let trade : TradeRecord F = record {
        date = date;
        stock_code = stock_code;
        side = TradeSide.sells;
        price = adjusted_price;
        quantity = p.quantity;
        commission = commission;
        profit_loss = (adjusted_price ⊖ p.avg_price) ⊗ N.of_ℤ p.quantity ⊖ commission;
        profit_rate = rate ⊗ of_ℕ 100;
      } in
      (
        some trade,
        record b {
          cash = b.cash ⊕ (adjusted_price ⊗ N.of_ℤ p.quantity ⊖ commission);
          positions = remove stock_code b.positions;
          trade_history = b.trade_history ++ (trade ∷ []);
        },
      )

  unfoldable pub sell :
      VirtualBroker F → String → F → String → Result (Option (TradeRecord F) × VirtualBroker F)
  sell b stock_code price date = elim (lookup stock_code b.positions) [
    | none ↦ ok (none, b)
    | some p ↦ divide (sold_price b price ⊖ p.avg_price) p.avg_price >>= λ rate.
        ok (fill_sell b p stock_code (sold_price b price) date rate)
  ]

  unfoldable pub check_stop_loss : VirtualBroker F → String → F → Result Bool
  check_stop_loss b stock_code current_price = elim (lookup stock_code b.positions) [
    | none ↦ ok false
    | some p ↦ divide (p.avg_price ⊖ current_price) p.avg_price >>= λ loss_rate.
        ok (N.le b.config.max_loss_rate loss_rate)
  ]

  unfoldable pub check_take_profit : VirtualBroker F → String → F → Result Bool
  check_take_profit b stock_code current_price = elim (lookup stock_code b.positions) [
    | none ↦ ok false
    | some p ↦ divide (current_price ⊖ p.avg_price) p.avg_price >>= λ gain_rate.
        ok (N.le b.config.take_profit_ratio gain_rate)
  ]

  -- The value of the positions; a stock without a current price counts at its purchase price.
  abbrev pub stock_value : F → List (String × F) → List (String × Position F) → F
  stock_value acc prices [] = acc
  stock_value acc prices ((_, p) ∷ rest) =
      stock_value
        (acc
          ⊕ N.of_ℤ p.quantity
            ⊗ elim (lookup p.stock_code prices) [ none ↦ p.avg_price | some price ↦ price ])
        prices rest

  unfoldable pub portfolio_value : VirtualBroker F → List (String × F) → F
  unfolding lookup
  portfolio_value b prices = b.cash ⊕ stock_value (of_ℕ 0) prices b.positions

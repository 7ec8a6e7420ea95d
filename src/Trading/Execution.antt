-- ===== src/Trading/Execution.antt =====
-- src/engine.py, `_execute_buy` and `_execute_sell`: the branches around one order. The answers of
-- the broker, the database and the guards are an argument.
use Prim.Native.String.{String}
use text.Mathlib.Text.{◌==◌ as str_eq}
use kis_autotrader.Common.{
  ℕ, suc, Bool, false, not, ◌&&◌, ◌||◌, Option, none, List, [], ◌∷◌, ◌++◌, if◌then◌else◌,
}
use kis_autotrader.Common.Dict.{put, remove}
use kis_autotrader.Common.Int.{ℤ, pos, ltb_ℤ}
use kis_autotrader.Float.{Float, of_ℕ}
use kis_autotrader.Python.{or_default}
use kis_autotrader.Trading.{
  Side, PendingOrder, submitted, outcome, Config, Clock, TradingEngine, emit, count_buy, norm_price,
}
use kis_autotrader.Trading.Orders.{confirm_fill, record_trade, suppress_or_replace_pending}

-- The broker's answer to an order: its number, a refusal of the stock, or another exception.
pub data Placement : Type 0 where
  accepted : (order_no : String) → Placement
  untradable : Placement
  failed : Placement

-- What `_check_market_action_block`, `_check_disclosure_risk_block`, `db_healthcheck` and the
-- broker answer during one call: the holding that the last poll of a stale order reads, the holding
-- before the order, the placement, and the polls of `_confirm_fill`. A reading that raises is none.
pub record Answers : Type 0 where
  pub market_action_block : Bool
  pub disclosure_block : Bool
  pub db_healthcheck : Bool
  pub orphan : Option ℤ
  pub held_before : Option ℤ
  pub placement : Placement
  pub poll : ℕ → Option ℤ

-- `code in self._untradable_today`, and `.add(code)`
abbrev pub has : String → List String → Bool
has code [] = false
has code (c ∷ cs) = str_eq c code || has code cs

abbrev pub add : String → List String → List String
add code cs = if has code cs then cs else cs ++ (code ∷ [])

-- `retries` of `_confirm_fill`.
abbrev pub fill_retries : ℕ
fill_retries = 3

module _ {F : Type 0} ⦃N : Float F⦄ (cfg : Config F) (clock : Clock F) (a : Answers) where
  -- The order that is tracked when no fill is seen.
  abbrev pub pending_order :
      Side → String → String → ℤ → ℤ → F → Option F → Option String → ℕ → PendingOrder F
  pending_order side order_no name quantity before price avg signal_type cycle = record {
    order_no = order_no;
    side = side;
    quantity = quantity;
    placed_cycle = cycle;
    stock_name = name;
    qty_before = before;
    price = norm_price cfg price;
    avg_price = avg;
    signal_type = signal_type;
  }

  abbrev pub track : String → PendingOrder F → TradingEngine F → TradingEngine F
  track code p t = record t { pending_orders = put code p t.pending_orders }

  -- The fill of a buy: counted, for the day and for the stock, and recorded.
  abbrev pub book_buy : String → ℤ → F → Option String → TradingEngine F → TradingEngine F
  book_buy code filled price signal_type t =
      let counted = count_buy code (record t { today_trade_count = suc t.today_trade_count }) in
      let t' = record counted {
        pending_orders = remove code t.pending_orders;
        peak_prices = remove code t.peak_prices;
      } in
      record_trade cfg clock Side.buys code filled (norm_price cfg price) "" signal_type none t'

  -- The part of `_execute_buy` behind the guards, from the submission on.
  abbrev pub submit_buy :
      String → String → ℤ → F → Option String → TradingEngine F → TradingEngine F
  submit_buy code name quantity price signal_type t =
      let before = or_default a.held_before (pos 0) in
      elim a.placement [
        | Placement.untradable ↦
            emit (outcome code "ORDER_UNTRADABLE")
              (record t { untradable_today = add code t.untradable_today })
        | Placement.failed ↦ emit (outcome code "ORDER_FAIL") t
        | Placement.accepted order_no ↦
            let filled = confirm_fill Side.buys before a.poll fill_retries in
            let t' = emit (submitted Side.buys code order_no quantity) t in
            if ltb_ℤ (pos 0) filled
            then emit (outcome code "FILLED") (book_buy code filled price signal_type t')
            else emit (outcome code "UNFILLED") (
                track code
                  (pending_order Side.buys order_no name quantity before price none none
                    t.cycle_count)
                  t')
      ]

  -- The part behind the guards on the stock, from the pending orders on.
  abbrev pub replace_and_buy :
      String → String → ℤ → F → Option String → TradingEngine F → TradingEngine F
  replace_and_buy code name quantity price signal_type t =
      let (suppressed, t') = suppress_or_replace_pending cfg clock a.orphan code t in
      if suppressed
      then emit (outcome code "SUPPRESS_PENDING") t'
      else if cfg.db_precheck_before_order && not a.db_healthcheck
      then emit (outcome code "DB_DOWN") t'
      else submit_buy code name quantity price signal_type t'

  -- `_execute_buy`
  unfoldable pub execute_buy :
      String → String → ℤ → F → Option String → TradingEngine F → TradingEngine F
  execute_buy code name quantity price signal_type t =
      if has code t.untradable_today
      then emit (outcome code "SKIP_UNTRADABLE_TODAY") t
      else if N.le price (of_ℕ 0) || N.lt price cfg.min_price
      then emit (outcome code "BLOCK_PRICE_FLOOR") t
      else if a.market_action_block
      then emit (outcome code "BLOCK_MARKET_ACTION") t
      else if a.disclosure_block
      then emit (outcome code "BLOCK_DISCLOSURE") t
      else replace_and_buy code name quantity price signal_type t

  -- The fill of a sell: counted and recorded, its peak and holding time forgotten, and its time kept
  -- for the cooldown.
  abbrev pub book_sell :
      String → ℤ → F → String → Option F → Option String → TradingEngine F → TradingEngine F
  book_sell code filled price reason avg signal_type t =
      let t₁ = record t {
        today_trade_count = suc t.today_trade_count;
        pending_orders = remove code t.pending_orders;
      } in
      let t₂ =
        record_trade cfg clock Side.sells code filled (norm_price cfg price) reason signal_type avg
          t₁ in
      record t₂ {
        peak_prices = remove code t₂.peak_prices;
        held_since = remove code t₂.held_since;
        last_sell_at = put code clock.now t₂.last_sell_at;
      }

  abbrev pub submit_sell :
      String
      → ℤ
      → F
      → String
      → Option F
      → Option String
      → String
      → TradingEngine F
      → TradingEngine F
  submit_sell code quantity price reason avg signal_type name t =
      let before = or_default a.held_before quantity in
      elim a.placement [
        | Placement.untradable ↦ t
        | Placement.failed ↦ t
        | Placement.accepted order_no ↦
            let filled = confirm_fill Side.sells before a.poll fill_retries in
            let t' = emit (submitted Side.sells code order_no quantity) t in
            if ltb_ℤ (pos 0) filled
            then book_sell code filled price reason avg signal_type t'
            else track code
                (pending_order Side.sells order_no name quantity before price avg signal_type
                  t.cycle_count)
                t'
      ]

  -- `_execute_sell`
  unfoldable pub execute_sell :
      String
      → ℤ
      → F
      → String
      → Option F
      → Option String
      → String
      → TradingEngine F
      → TradingEngine F
  execute_sell code quantity price reason avg signal_type name t =
      let (suppressed, t') = suppress_or_replace_pending cfg clock a.orphan code t in
      if suppressed
      then t'
      else if cfg.db_precheck_before_order && not a.db_healthcheck
      then t'
      else submit_sell code quantity price reason avg signal_type name t'

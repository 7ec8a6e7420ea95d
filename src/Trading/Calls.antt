-- ===== src/Trading/Calls.antt =====
-- What the changes that an engine is made of keep, its calls keep: a predicate that is closed under
-- the changes holds after every order, every stock and every cycle.
pub mod Pending
pub mod Placing
pub mod Cleared
pub mod Stocks
pub mod Cycles
use Prim.Native.String.{String}
use text.Mathlib.TextPositions.{eq_refl}
use kis_autotrader.Common.{
  ℕ, zero, suc, ◌≡◌, refl, ap, sym, ◌∙◌, Bool, true, false, not, ◌&&◌, ◌||◌, Option, none, some,
  List, [], ◌∷◌, arith, inl, inr, ◌⊎◌, Bool-cases, Option-cases, keep, if◌then◌else◌,
}
use kis_autotrader.Common.Dict.{lookup, put, remove, lookup-remove}
use kis_autotrader.Common.Dict.Keys.{
  HasUniqueKeys, remove-HasUniqueKeys, put-HasUniqueKeys, keep-HasUniqueKeys, AreEntries,
  self-AreEntries, keep-AreEntries, remove-AreEntries,
}
use kis_autotrader.Common.Int.{ℤ, pos, ltb_ℤ}
use kis_autotrader.Float.{Float}
use kis_autotrader.Python.{or_default}
use kis_autotrader.Trading.{
  Side, buys, sells, PendingOrder, Event, submitted, outcome, Config, Clock, TradingEngine, emit,
  Side-cases,
}
use kis_autotrader.Trading.Orders.{
  record_trade, confirm_fill, book_orphan, orphan_filled, drop_order, cancel_pending_order,
  is_stale, suppress_or_replace_pending, cancel_each, cleanup_stale_pending_orders,
  cancel_all_pending_orders,
}
use kis_autotrader.Trading.Execution.{
  Placement, accepted, untradable, failed, Answers, add, fill_retries, pending_order, track,
  book_buy, submit_buy, execute_buy, book_sell, submit_sell, execute_sell,
}
use kis_autotrader.Trading.Held.{observe}

module _ {F : Type 0} where
  -- The predicate in the middle of a day: a stock has one pending order at most, and the state was
  -- not lost.
  pub record Fits (K : TradingEngine F → Type 0) (t : TradingEngine F) : Type 0 where
    pub kept : K t
    pub unique : HasUniqueKeys t.pending_orders
    pub restored : t.risk_state_restored ≡ true

module _ {F : Type 0} ⦃N : Float F⦄ (cfg : Config F) where
  pub record IsClosed (K : TradingEngine F → Type 0) : Type 0 where
    pub marks : (code label : String) (t : TradingEngine F) → K t → K (emit (outcome code label) t)
    pub observes :
        (clock : Clock F) (code : String) (price avg : F) (t : TradingEngine F)
        → K t
        → K (observe clock code price avg t)
    pub blacklists :
        (code : String) (t : TradingEngine F)
        → K t
        → K (record t { untradable_today = add code t.untradable_today })
    pub ticks : (t : TradingEngine F) → K t → K (record t { cycle_count = suc t.cycle_count })
    pub limits : (t : TradingEngine F) → K t → K (record t { daily_limit_reached = true })
    pub screens :
        (codes : List String) (t : TradingEngine F) → K t → K (record t { screened_codes = codes })
    pub fills_buy :
        (clock : Clock F) (a : Answers) (code order_no : String) (quantity filled : ℤ) (price : F)
        (word : Option String) (t : TradingEngine F)
        → lookup code t.pending_orders ≡ none
        → K t
        → K (
            book_buy cfg clock a code filled price word
              (emit (submitted Side.buys code order_no quantity) t))
    pub fills_sell :
        (clock : Clock F) (a : Answers) (code order_no : String) (quantity filled : ℤ) (price : F)
        (reason : String) (avg : Option F) (word : Option String) (t : TradingEngine F)
        → lookup code t.pending_orders ≡ none
        → K t
        → K (
            book_sell cfg clock a code filled price reason avg word
              (emit (submitted Side.sells code order_no quantity) t))
    pub tracks :
        (clock : Clock F) (a : Answers) (side : Side) (code order_no name : String)
        (quantity before : ℤ) (price : F) (avg : Option F) (word : Option String)
        (t : TradingEngine F)
        → lookup code t.pending_orders ≡ none
        → K t
        → K (
            track cfg clock a code
              (pending_order cfg clock a side order_no name quantity before price avg word
                t.cycle_count)
              (emit (submitted side code order_no quantity) t))
    pub orphans :
        (clock : Clock F) (code : String) (p : PendingOrder F) (filled : ℤ) (t : TradingEngine F)
        → lookup code t.pending_orders ≡ some p
        → K t
        → K (book_orphan cfg clock code p filled t)
    pub drops :
        (clock : Clock F) (code : String) (p : PendingOrder F) (reason : String)
        (t : TradingEngine F)
        → lookup code t.pending_orders ≡ some p
        → K t
        → K (drop_order cfg clock code p reason t)

  -- A record of a trade leaves the pending orders alone.
  record_trade-pending :
      (clock : Clock F) (side : Side) (code : String) (quantity : ℤ) (price : F) (reason : String)
      (word : Option String) (avg : Option F) (t : TradingEngine F)
      → let t' = record_trade cfg clock side code quantity price reason word avg t in
        (t'.pending_orders ≡ t.pending_orders) × (t'.risk_state_restored ≡ t.risk_state_restored)
  unfolding record_trade
  record_trade-pending clock Side.buys code quantity price reason word avg t = (refl, refl)
  record_trade-pending clock Side.sells code quantity price reason word none t = (refl, refl)
  record_trade-pending clock Side.sells code quantity price reason word (some a) t = ground arith

  pub book_orphan-pending :
      (clock : Clock F) (code : String) (p : PendingOrder F) (filled : ℤ) (t : TradingEngine F)
      → let t' = book_orphan cfg clock code p filled t in
        (t'.pending_orders ≡ remove code t.pending_orders)
        × (t'.risk_state_restored ≡ t.risk_state_restored)
  book_orphan-pending clock code p filled t = elim (Side-cases p.side) [
    | inl e ↦ rw e (record_trade-pending clock Side.buys code filled _ "" none none _)
    | inr e ↦
        rw e (record_trade-pending clock Side.sells code filled _ "" p.signal_type p.avg_price _)
  ]

  pub cancel_pending_order-pending :
      (clock : Clock F) (held : Option ℤ) (code : String) (p : PendingOrder F) (reason : String)
      (t : TradingEngine F)
      → let t' = cancel_pending_order cfg clock held code p reason t in
        (t'.pending_orders ≡ remove code t.pending_orders)
        × (t'.risk_state_restored ≡ t.risk_state_restored)
  unfolding cancel_pending_order
  cancel_pending_order-pending clock held code p reason t =
      elim (Bool-cases
        (cfg.reconcile_orphan_fills && ltb_ℤ (pos 0) (orphan_filled cfg clock p held))) [
          | inl e ↦ rw e (book_orphan-pending clock code p (orphan_filled cfg clock p held) t)
          | inr e ↦ rw e (refl, refl)
        ]

-- ===== src/Trading/Calls/Placing.antt =====
-- The calls around one order, on either side, keep what is closed under the changes.
use Prim.Native.String.{String}
use kis_autotrader.Common.{◌≡◌, refl, false, not, ◌&&◌, ◌||◌, Option, none, inl, inr, Bool-cases}
use kis_autotrader.Common.Dict.{lookup}
use kis_autotrader.Common.Int.{ℤ, pos, ltb_ℤ}
use kis_autotrader.Float.{Float, of_ℕ}
use kis_autotrader.Python.{or_default}
use kis_autotrader.Trading.{Side, Config, Clock, TradingEngine, norm_price}
use kis_autotrader.Trading.Orders.{confirm_fill, suppress_or_replace_pending}
use kis_autotrader.Trading.Execution.{
  Placement, Answers, has, fill_retries, submit_buy, execute_buy, submit_sell, execute_sell,
}
use kis_autotrader.Trading.Calls.{IsClosed, Fits, record_trade-pending}
use kis_autotrader.Trading.Calls.Pending.{
  if_Fits, emit-Fits, without-Fits, track-Fits, suppress_or_replace_pending-Fits,
}

module _ {F : Type 0} ⦃N : Float F⦄ {cfg : Config F} {K : TradingEngine F → Type 0}
    (c : IsClosed cfg K) where
  submit_buy-Fits :
      (clock : Clock F) (a : Answers) (code name : String) (quantity : ℤ) (price : F)
      (word : Option String) (t : TradingEngine F)
      → lookup code t.pending_orders ≡ none
      → Fits K t
      → Fits K (submit_buy cfg clock a code name quantity price word t)
  submit_buy-Fits clock a code name quantity price word t h f = placed a.placement refl
    where
      placed :
          (o : Placement)
          → a.placement ≡ o
          → Fits K (submit_buy cfg clock a code name quantity price word t)
      placed Placement.untradable e = rw e (
          emit-Fits c code "ORDER_UNTRADABLE" _
            record { kept = c.blacklists code t f.kept; unique = f.unique; restored = f.restored })
      placed Placement.failed e = rw e (emit-Fits c code "ORDER_FAIL" t f)
      placed (Placement.accepted order_no) e =
          let filled =
            confirm_fill Side.buys (or_default a.held_before (pos 0)) a.poll fill_retries in
          rw e (
            if_Fits c (ltb_ℤ (pos 0) filled) _ _
              (emit-Fits c code "FILLED" _ (
                without-Fits c code t _ f
                  (c.fills_buy clock a code order_no quantity filled price word t h f.kept)
                  (record_trade-pending cfg clock Side.buys code filled (norm_price cfg price) ""
                    word none _)))
              (emit-Fits c code "UNFILLED" _ (
                track-Fits c clock a Side.buys code order_no name quantity
                  (or_default a.held_before (pos 0)) price none none t h f)))

  pub execute_buy-Fits :
      (clock : Clock F) (a : Answers) (code name : String) (quantity : ℤ) (price : F)
      (word : Option String) (t : TradingEngine F)
      → Fits K t
      → Fits K (execute_buy cfg clock a code name quantity price word t)
  unfolding execute_buy
  execute_buy-Fits clock a code name quantity price word t f =
      if_Fits c (has code t.untradable_today) _ _ (emit-Fits c code "SKIP_UNTRADABLE_TODAY" t f) (
        if_Fits c (N.le price (of_ℕ 0) || N.lt price cfg.min_price) _ _
          (emit-Fits c code "BLOCK_PRICE_FLOOR" t f)
          (if_Fits c a.market_action_block _ _ (emit-Fits c code "BLOCK_MARKET_ACTION" t f) (
            if_Fits c a.disclosure_block _ _ (emit-Fits c code "BLOCK_DISCLOSURE" t f)
              (elim (Bool-cases (suppress_or_replace_pending cfg clock a.orphan code t).0) [
                | inl s ↦ rw s (emit-Fits c code "SUPPRESS_PENDING" _ pending.0)
                | inr s ↦ rw s (
                    if_Fits c (cfg.db_precheck_before_order && not a.db_healthcheck) _ _
                      (emit-Fits c code "DB_DOWN" _ pending.0)
                      (submit_buy-Fits clock a code name quantity price word _ (pending.1 s)
                        pending.0))
              ]))))
    where
      pending :
          let r = suppress_or_replace_pending cfg clock a.orphan code t in
          Fits K r.1 × (r.0 ≡ false → lookup code r.1.pending_orders ≡ none)
      pending = suppress_or_replace_pending-Fits c clock a.orphan code t f

  submit_sell-Fits :
      (clock : Clock F) (a : Answers) (code : String) (quantity : ℤ) (price : F) (reason : String)
      (avg : Option F) (word : Option String) (name : String) (t : TradingEngine F)
      → lookup code t.pending_orders ≡ none
      → Fits K t
      → Fits K (submit_sell cfg clock a code quantity price reason avg word name t)
  submit_sell-Fits clock a code quantity price reason avg word name t h f = placed a.placement refl
    where
      placed :
          (o : Placement)
          → a.placement ≡ o
          → Fits K (submit_sell cfg clock a code quantity price reason avg word name t)
      placed Placement.untradable e = rw e f
      placed Placement.failed e = rw e f
      placed (Placement.accepted order_no) e =
          let filled =
            confirm_fill Side.sells (or_default a.held_before quantity) a.poll fill_retries in
          rw e (
            if_Fits c (ltb_ℤ (pos 0) filled) _ _
              (without-Fits c code t _ f
                (c.fills_sell clock a code order_no quantity filled price reason avg word t h
                  f.kept)
                (record_trade-pending cfg clock Side.sells code filled (norm_price cfg price) reason
                  word avg _))
              (track-Fits c clock a Side.sells code order_no name quantity
                (or_default a.held_before quantity) price avg word t h f))

  pub execute_sell-Fits :
      (clock : Clock F) (a : Answers) (code : String) (quantity : ℤ) (price : F) (reason : String)
      (avg : Option F) (word : Option String) (name : String) (t : TradingEngine F)
      → Fits K t
      → Fits K (execute_sell cfg clock a code quantity price reason avg word name t)
  unfolding execute_sell
  execute_sell-Fits clock a code quantity price reason avg word name t f =
      elim (Bool-cases (suppress_or_replace_pending cfg clock a.orphan code t).0) [
        | inl s ↦ rw s pending.0
        | inr s ↦ rw s (
            if_Fits c (cfg.db_precheck_before_order && not a.db_healthcheck) _ _ pending.0 (
              submit_sell-Fits clock a code quantity price reason avg word name _ (pending.1 s)
                pending.0))
      ]
    where
      pending :
          let r = suppress_or_replace_pending cfg clock a.orphan code t in
          Fits K r.1 × (r.0 ≡ false → lookup code r.1.pending_orders ≡ none)
      pending = suppress_or_replace_pending-Fits c clock a.orphan code t f

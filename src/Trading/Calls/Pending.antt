-- ===== src/Trading/Calls/Pending.antt =====
-- The calls around the pending orders keep what is closed under the changes.
use Prim.Native.String.{String}
use text.Mathlib.TextPositions.{eq_refl}
use kis_autotrader.Common.{
  ◌≡◌, refl, ap, sym, subst, ◌∙◌, Bool, true, false, ◌&&◌, Option, none, some, List, [], ◌∷◌, arith,
  inl, inr, Bool-cases, Option-cases, keep, if◌then◌else◌,
}
use kis_autotrader.Common.Dict.{lookup, remove, lookup-remove}
use kis_autotrader.Common.Dict.Keys.{
  HasUniqueKeys, remove-HasUniqueKeys, put-HasUniqueKeys, keep-HasUniqueKeys, AreEntries,
  self-AreEntries, keep-AreEntries, remove-AreEntries,
}
use kis_autotrader.Common.Int.{ℤ, pos, ltb_ℤ}
use kis_autotrader.Float.{Float}
use kis_autotrader.Trading.{
  Side, PendingOrder, submitted, outcome, Config, Clock, TradingEngine, emit,
}
use kis_autotrader.Trading.Orders.{
  orphan_filled, cancel_pending_order, is_stale, suppress_or_replace_pending, cancel_each,
  cleanup_stale_pending_orders, cancel_all_pending_orders,
}
use kis_autotrader.Trading.Execution.{Answers, pending_order, track}
use kis_autotrader.Trading.Calls.{IsClosed, Fits, book_orphan-pending, cancel_pending_order-pending}

module _ {F : Type 0} ⦃N : Float F⦄ {cfg : Config F} {K : TradingEngine F → Type 0}
    (c : IsClosed cfg K) where
  pub if_Fits :
      (b : Bool) (x y : TradingEngine F) → Fits K x → Fits K y → Fits K (if b then x else y)
  if_Fits true x y p q = p
  if_Fits false x y p q = q

  pub emit-Fits :
      (code label : String) (t : TradingEngine F) → Fits K t → Fits K (emit (outcome code label) t)
  emit-Fits code label t f = record {
    kept = c.marks code label t f.kept;
    unique = f.unique;
    restored = f.restored;
  }

  -- A call after which the pending orders are those without one stock.
  pub without-Fits :
      (code : String) (t t' : TradingEngine F)
      → Fits K t
      → K t'
      → (t'.pending_orders ≡ remove code t.pending_orders)
        × (t'.risk_state_restored ≡ t.risk_state_restored)
      → Fits K t'
  without-Fits code t t' f k (e, r) = record {
    kept = k;
    unique = subst HasUniqueKeys (sym e) (remove-HasUniqueKeys code t.pending_orders f.unique);
    restored = r ∙ f.restored;
  }

  pub cancel_pending_order-Fits :
      (clock : Clock F) (held : Option ℤ) (code : String) (p : PendingOrder F) (reason : String)
      (t : TradingEngine F)
      → lookup code t.pending_orders ≡ some p
      → Fits K t
      → Fits K (cancel_pending_order cfg clock held code p reason t)
  unfolding cancel_pending_order
  cancel_pending_order-Fits clock held code p reason t h f =
      if_Fits (cfg.reconcile_orphan_fills && ltb_ℤ (pos 0) (orphan_filled cfg clock p held)) _ _
        (without-Fits code t _ f
          (c.orphans clock code p (orphan_filled cfg clock p held) t h f.kept)
          (book_orphan-pending cfg clock code p (orphan_filled cfg clock p held) t))
        (without-Fits code t _ f (c.drops clock code p reason t h f.kept) (refl, refl))

  -- Behind it nothing is pending for the stock, unless it holds the new order back.
  pub suppress_or_replace_pending-Fits :
      (clock : Clock F) (held : Option ℤ) (code : String) (t : TradingEngine F)
      → Fits K t
      → let r = suppress_or_replace_pending cfg clock held code t in
        Fits K r.1 × (r.0 ≡ false → lookup code r.1.pending_orders ≡ none)
  unfolding suppress_or_replace_pending
  suppress_or_replace_pending-Fits clock held code t f =
      elim (Option-cases (lookup code t.pending_orders)) [
        | inl e ↦ rw (suppress_or_replace_pending, e) (f, λ _. e)
        | inr (p, e) ↦
            rw (suppress_or_replace_pending, e)
              (elim (Bool-cases (is_stale cfg clock t.cycle_count p)) [
                | inl s ↦ rw s (
                  cancel_pending_order-Fits clock held code p "timeout_replace" t e f,
                  λ _.
                      subst (λ d. lookup code d ≡ none)
                        (sym
                          (cancel_pending_order-pending cfg clock held code p "timeout_replace"
                            t).0)
                        (lookup-remove code code t.pending_orders
                          ∙ ap (λ b. if b then none else lookup code t.pending_orders)
                              (eq_refl code)),
                )
                | inr s ↦ rw s (f, λ h. absurd (ground arith))
              ])
      ]

  -- A call after which one more order is pending.
  pub track-Fits :
      (clock : Clock F) (a : Answers) (side : Side) (code order_no name : String)
      (quantity before : ℤ) (price : F) (avg : Option F) (word : Option String)
      (t : TradingEngine F)
      → lookup code t.pending_orders ≡ none
      → Fits K t
      → Fits K (
          track cfg clock a code
            (pending_order cfg clock a side order_no name quantity before price avg word
              t.cycle_count)
            (emit (submitted side code order_no quantity) t))
  track-Fits clock a side code order_no name quantity before price avg word t h f = record {
    kept = c.tracks clock a side code order_no name quantity before price avg word t h f.kept;
    unique =
        put-HasUniqueKeys code
          (pending_order cfg clock a side order_no name quantity before price avg word
            t.cycle_count)
          t.pending_orders f.unique;
    restored = f.restored;
  }

  -- The loop over some of the pending orders.
  cancel_each-Fits :
      (clock : Clock F) (held : String → Option ℤ) (reason : String)
      (es : List (String × PendingOrder F)) (t : TradingEngine F)
      → HasUniqueKeys es
      → AreEntries es t.pending_orders
      → Fits K t
      → Fits K (cancel_each cfg clock held reason es t)
  unfolding cancel_each
  cancel_each-Fits clock held reason [] t u a f = f
  cancel_each-Fits clock held reason ((code, p) ∷ es) t (h, u) (a, rest) f =
      cancel_each-Fits clock held reason es
        (cancel_pending_order cfg clock (held code) code p reason t) u
        (subst (AreEntries es)
          (sym (cancel_pending_order-pending cfg clock (held code) code p reason t).0)
          (remove-AreEntries code es t.pending_orders h rest))
        (cancel_pending_order-Fits clock (held code) code p reason t a f)

  pub cleanup_stale_pending_orders-Fits :
      (clock : Clock F) (held : String → Option ℤ) (t : TradingEngine F)
      → Fits K t
      → Fits K (cleanup_stale_pending_orders cfg clock held t)
  unfolding cleanup_stale_pending_orders
  cleanup_stale_pending_orders-Fits clock held t f =
      let q = λ (e : String × PendingOrder F). is_stale cfg clock t.cycle_count e.1 in
      cancel_each-Fits clock held "stale_cleanup" (keep q t.pending_orders) t
        (keep-HasUniqueKeys q t.pending_orders f.unique)
        (keep-AreEntries q t.pending_orders t.pending_orders
          (self-AreEntries t.pending_orders f.unique))
        f

  pub cancel_all_pending_orders-Fits :
      (clock : Clock F) (held : String → Option ℤ) (t : TradingEngine F)
      → Fits K t
      → Fits K (cancel_all_pending_orders cfg clock held t)
  unfolding cancel_all_pending_orders
  cancel_all_pending_orders-Fits clock held t f =
      cancel_each-Fits clock held "market_close" t.pending_orders t f.unique
        (self-AreEntries t.pending_orders f.unique) f

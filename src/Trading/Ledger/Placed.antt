-- ===== src/Trading/Ledger/Placed.antt =====
-- The orders that the calls around one order submit.
use Prim.Native.String.{String}
use kis_autotrader.Common.{
  ◌≡◌, refl, ap, ◌∙◌, Bool, true, false, not, ◌&&◌, ◌||◌, Option, some, List, [], ◌∷◌, arith, ◌++◌,
  inl, inr, ◌⊎◌, Bool-cases, Option-cases, append_empty, if◌then◌else◌,
}
use kis_autotrader.Common.Dict.{lookup}
use kis_autotrader.Common.Int.{ℤ, pos, ltb_ℤ}
use kis_autotrader.Float.{Float, of_ℕ}
use kis_autotrader.Python.{or_default}
use kis_autotrader.Trading.{
  Side, PendingOrder, Trade, Event, submitted, cancelled, recorded, outcome, Config, Clock,
  TradingEngine, emit,
}
use kis_autotrader.Trading.Orders.{
  confirm_fill, orphan_filled, cancel_pending_order, is_stale, suppress_or_replace_pending,
}
use kis_autotrader.Trading.Execution.{
  Placement, Answers, has, fill_retries, book_buy, submit_buy, replace_and_buy, execute_buy,
}
use kis_autotrader.Trading.Ledger.{Fills}
use kis_autotrader.Trading.Ledger.Bookings.{book_buy-Fills, book_orphan-Fills}

module _ {F : Type 0} where
  -- The orders that were submitted, oldest first.
  abbrev pub placed : List (Event F) → List (Side × String × ℤ)
  placed [] = []
  placed (submitted side code order_no quantity ∷ es) = (side, code, quantity) ∷ placed es
  placed (cancelled code order_no reason ∷ es) = placed es
  placed (recorded r ∷ es) = placed es
  placed (outcome code label ∷ es) = placed es

  pub placed-append : (es fs : List (Event F)) → placed (es ++ fs) ≡ placed es ++ placed fs
  placed-append [] fs = refl
  placed-append (submitted side code order_no quantity ∷ es) fs =
      ap (λ os. (side, code, quantity) ∷ os) (placed-append es fs)
  placed-append (cancelled code order_no reason ∷ es) fs = placed-append es fs
  placed-append (recorded r ∷ es) fs = placed-append es fs
  placed-append (outcome code label ∷ es) fs = placed-append es fs

  -- A call that is no submission.
  pub placed_other :
      (es : List (Event F)) (e : Event F)
      → placed (e ∷ []) ≡ []
      → placed (es ++ (e ∷ [])) ≡ placed es
  placed_other es e h = placed-append es (e ∷ []) ∙ rw h (append_empty (placed es))

module _ {F : Type 0} ⦃N : Float F⦄ (cfg : Config F) (clock : Clock F) where
  pub Fills-placed :
      (code : String) (r : Trade F) (t t' : TradingEngine F)
      → Fills code r t t'
      → placed t'.events ≡ placed t.events
  Fills-placed code r t t' f = ap placed f.events ∙ placed_other t.events (recorded r) refl

  cancel_pending_order-placed :
      (held : Option ℤ) (code : String) (p : PendingOrder F) (reason : String) (t : TradingEngine F)
      → placed (cancel_pending_order cfg clock held code p reason t).events ≡ placed t.events
  unfolding cancel_pending_order
  cancel_pending_order-placed held code p reason t =
      elim (Bool-cases
        (cfg.reconcile_orphan_fills && ltb_ℤ (pos 0) (orphan_filled cfg clock p held))) [
          | inl e ↦
              let (r, f) = book_orphan-Fills cfg clock code p (orphan_filled cfg clock p held) t in
              rw e (Fills-placed code r t _ f)
          | inr e ↦ rw e (placed_other t.events (cancelled code p.order_no reason) refl)
        ]

  -- What is pending is at most cancelled.
  pub suppress_or_replace_pending-placed :
      (held : Option ℤ) (code : String) (t : TradingEngine F)
      → placed (suppress_or_replace_pending cfg clock held code t).1.events ≡ placed t.events
  unfolding suppress_or_replace_pending
  suppress_or_replace_pending-placed held code t =
      elim (Option-cases (lookup code t.pending_orders)) [
        | inl e ↦ rw (suppress_or_replace_pending, e) refl
        | inr (p, e) ↦
            rw (suppress_or_replace_pending, e)
              (elim (Bool-cases (is_stale cfg clock t.cycle_count p)) [
                | inl s ↦ rw s (cancel_pending_order-placed held code p "timeout_replace" t)
                | inr s ↦ rw s refl
              ])
      ]

  module _ (a : Answers) where
    submit_buy-placed :
        (code name : String) (quantity : ℤ) (price : F) (word : Option String) (t : TradingEngine F)
        → let os = placed (submit_buy cfg clock a code name quantity price word t).events in
          (os ≡ placed t.events) ⊎ (os ≡ placed t.events ++ ((Side.buys, code, quantity) ∷ []))
    submit_buy-placed code name quantity price word t = answered a.placement refl
      where
        answered :
            (o : Placement)
            → a.placement ≡ o
            → let os = placed (submit_buy cfg clock a code name quantity price word t).events in
              (os ≡ placed t.events) ⊎ (os ≡ placed t.events ++ ((Side.buys, code, quantity) ∷ []))
        answered Placement.untradable e =
            rw e (inl (placed_other t.events (outcome code "ORDER_UNTRADABLE") refl))
        answered Placement.failed e =
            rw e (inl (placed_other t.events (outcome code "ORDER_FAIL") refl))
        answered (Placement.accepted order_no) e =
            let before : ℤ = or_default a.held_before (pos 0) in
            let filled : ℤ = confirm_fill Side.buys before a.poll fill_retries in
            let t' : TradingEngine F = emit (submitted Side.buys code order_no quantity) t in
            let sent = placed-append t.events (submitted Side.buys code order_no quantity ∷ []) in
            rw e (
              inr (elim (Bool-cases (ltb_ℤ (pos 0) filled)) [
                | inl s ↦
                    let (r, f) = book_buy-Fills cfg clock a code filled price word t' in
                    rw s (
                      placed_other (book_buy cfg clock a code filled price word t').events
                        (outcome code "FILLED") refl
                      ∙ Fills-placed code r t' (book_buy cfg clock a code filled price word t') f
                      ∙ sent)
                | inr s ↦ rw s (placed_other t'.events (outcome code "UNFILLED") refl ∙ sent)
              ]))

    marked :
        (code label : String) (t : TradingEngine F)
        → placed (emit (outcome code label) t).events ≡ placed t.events
    marked code label t = placed_other t.events (outcome code label) refl

    -- No other order of the stock is pending, or one that has reached the timeout.
    abbrev pub IsFree : String → TradingEngine F → Type 0
    IsFree code t =
        (p : PendingOrder F)
        → lookup code t.pending_orders ≡ some p
        → is_stale cfg clock t.cycle_count p ≡ true

    -- The guards of `_execute_buy`, on the stock, its price and its pending order, and of the
    -- database, let an order pass.
    pub record IsAllowed (code : String) (price : F) (t : TradingEngine F) : Type 0 where
      pub tradable : has code t.untradable_today ≡ false
      pub above_floor : (N.le price (of_ℕ 0) || N.lt price cfg.min_price) ≡ false
      pub no_action_block : a.market_action_block ≡ false
      pub no_disclosure_block : a.disclosure_block ≡ false
      pub no_duplicate : IsFree code t
      pub db_up : cfg.db_precheck_before_order ≡ true → a.db_healthcheck ≡ true

    not_suppressed-IsFree :
        (code : String) (t : TradingEngine F)
        → (suppress_or_replace_pending cfg clock a.orphan code t).0 ≡ false
        → IsFree code t
    unfolding suppress_or_replace_pending
    not_suppressed-IsFree code t h p e = elim (Bool-cases (is_stale cfg clock t.cycle_count p)) [
      | inl s ↦ s
      | inr s ↦
          let suppressed : true ≡ false = rw (suppress_or_replace_pending, e, s) at h in
          absurd (ground (arith))
    ]

    replace_and_buy-placed :
        (code name : String) (quantity : ℤ) (price : F) (word : Option String) (t : TradingEngine F)
        → let os = placed (replace_and_buy cfg clock a code name quantity price word t).events in
          (os ≡ placed t.events)
          ⊎ ((IsFree code t × (cfg.db_precheck_before_order ≡ true → a.db_healthcheck ≡ true))
              × (os ≡ placed t.events ++ ((Side.buys, code, quantity) ∷ [])))
    replace_and_buy-placed code name quantity price word t =
        elim (Bool-cases (suppress_or_replace_pending cfg clock a.orphan code t).0) [
          | inl s ↦ rw s (inl (marked code "SUPPRESS_PENDING" after ∙ same))
          | inr s ↦ rw s (elim (Bool-cases (cfg.db_precheck_before_order && not a.db_healthcheck)) [
            | inl h ↦ rw h (inl (marked code "DB_DOWN" after ∙ same))
            | inr h ↦ rw h (elim (submit_buy-placed code name quantity price word after) [
              | inl e ↦ inl (e ∙ same)
              | inr e ↦ inr (
                (not_suppressed-IsFree code t s, λ on. ground (arith)),
                e ∙ ap (λ os. os ++ ((Side.buys, code, quantity) ∷ [])) same,
              )
            ])
          ])
        ]
      where
        after : TradingEngine F
        after = (suppress_or_replace_pending cfg clock a.orphan code t).1

        same :
            placed (suppress_or_replace_pending cfg clock a.orphan code t).1.events
            ≡ placed t.events
        same = suppress_or_replace_pending-placed a.orphan code t

    -- A guard that returns early adds its own fact to what an order needs.
    guard :
        (b : Bool) (x y : TradingEngine F) (before after : List (Side × String × ℤ)) (P : Type 0)
        → placed x.events ≡ before
        → (b ≡ false → (placed y.events ≡ before) ⊎ (P × (placed y.events ≡ after)))
        → (placed (if b then x else y).events ≡ before)
          ⊎ (P × (placed (if b then x else y).events ≡ after))
    guard true x y before after P early late = inl early
    guard false x y before after P early late = late refl

    -- A buy is submitted only behind those guards, and no other order is.
    pub execute_buy-placed :
        (code name : String) (quantity : ℤ) (price : F) (word : Option String) (t : TradingEngine F)
        → let os = placed (execute_buy cfg clock a code name quantity price word t).events in
          (os ≡ placed t.events)
          ⊎ (IsAllowed code price t × (os ≡ placed t.events ++ ((Side.buys, code, quantity) ∷ [])))
    unfolding execute_buy
    execute_buy-placed code name quantity price word t =
        let more : List (Side × String × ℤ) =
          placed t.events ++ ((Side.buys, code, quantity) ∷ []) in
        let P : Type 0 = IsAllowed code price t in
        guard (has code t.untradable_today) _ _ (placed t.events) more P
          (marked code "SKIP_UNTRADABLE_TODAY" t)
          (λ u.
            guard (N.le price (of_ℕ 0) || N.lt price cfg.min_price) _ _ (placed t.events) more P
              (marked code "BLOCK_PRICE_FLOOR" t)
              (λ z.
                guard a.market_action_block _ _ (placed t.events) more P
                  (marked code "BLOCK_MARKET_ACTION" t)
                  (λ b.
                    guard a.disclosure_block _ _ (placed t.events) more P
                      (marked code "BLOCK_DISCLOSURE" t)
                      (λ c. elim (replace_and_buy-placed code name quantity price word t) [
                        | inl e ↦ inl e
                        | inr ((free, db), e) ↦ inr (
                          record {
                            tradable = u;
                            above_floor = z;
                            no_action_block = b;
                            no_disclosure_block = c;
                            no_duplicate = free;
                            db_up = db;
                          },
                          e,
                        )
                      ]))))

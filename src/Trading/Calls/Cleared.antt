-- ===== src/Trading/Calls/Cleared.antt =====
-- Which orders the two clean-ups leave pending.
use Prim.Native.String.{String}
use text.Mathlib.Text.{◌==◌ as str_eq}
use kis_autotrader.Common.{
  ◌≡◌, refl, subst, ◌∙◌, Bool, true, false, Option, none, some, List, [], ◌∷◌, arith, inl, inr,
  Bool-cases, keep, if◌then◌else◌,
}
use kis_autotrader.Common.Texts.{str_eq_path}
use kis_autotrader.Common.Dict.{lookup, lookup-remove}
use kis_autotrader.Common.Dict.Keys.{HasUniqueKeys, lookup-keep}
use kis_autotrader.Common.Int.{ℤ}
use kis_autotrader.Float.{Float}
use kis_autotrader.Trading.{PendingOrder, Config, Clock, TradingEngine}
use kis_autotrader.Trading.Orders.{
  cancel_pending_order, is_stale, cancel_each, cleanup_stale_pending_orders,
  cancel_all_pending_orders,
}
use kis_autotrader.Trading.Calls.{cancel_pending_order-pending}

module _ {V : Type 0} where
  abbrev remaining : Option V → Option V → Option V
  remaining none o = o
  remaining (some v) o = none

  remaining-none : (o : Option V) → remaining o none ≡ none
  remaining-none none = refl
  remaining-none (some v) = refl

  remaining_self : (o : Option V) → remaining o o ≡ none
  remaining_self none = refl
  remaining_self (some v) = refl

  remaining_picked :
      (b : Bool) (v : V)
      → remaining (if b then some v else none) (some v) ≡ (if b then none else some v)
  remaining_picked true v = refl
  remaining_picked false v = refl

  -- A part of a dict that a test of the values picks.
  lookup-picked :
      (q : V → Bool) (j : String) (v : V) (d : List (String × V))
      → HasUniqueKeys d
      → lookup j d ≡ some v
      → lookup j (keep (λ e. q e.1) d) ≡ (if q v then some v else none)
  unfolding lookup
  lookup-picked q j v [] u h = absurd (ground arith)
  lookup-picked q j v ((k, w) ∷ d) (n, u) h = elim (Bool-cases (str_eq k j)) [
    | inl e ↦
        let absent =
          subst (λ i. lookup i (keep (λ c. q c.1) d) ≡ none) (str_eq_path k j e)
            (lookup-keep (λ c. q c.1) k d n) in
        elim (Bool-cases (q w)) [
          | inl s ↦ rw s (ground (arith, absent))
          | inr s ↦ rw s (ground (arith, absent))
        ]
    | inr e ↦
        let deeper = lookup-picked q j v d u (ground arith) in
        elim (Bool-cases (q w)) [ inl s ↦ rw s (ground (arith, deeper)) | inr s ↦ rw s deeper ]
  ]

module _ {F : Type 0} ⦃N : Float F⦄ (cfg : Config F) (clock : Clock F) where
  lookup-cancel_each :
      (held : String → Option ℤ) (reason j : String) (es : List (String × PendingOrder F))
      (t : TradingEngine F)
      → lookup j (cancel_each cfg clock held reason es t).pending_orders
        ≡ remaining (lookup j es) (lookup j t.pending_orders)
  unfolding cancel_each lookup
  lookup-cancel_each held reason j [] t = refl
  lookup-cancel_each held reason j ((code, p) ∷ es) t =
      lookup-cancel_each held reason j es
        (cancel_pending_order cfg clock (held code) code p reason t)
      ∙ rw
          (
            (cancel_pending_order-pending cfg clock (held code) code p reason t).0,
            lookup-remove j code t.pending_orders,
          )
          (elim (Bool-cases (str_eq code j)) [
            | inl e ↦ rw e (remaining-none (lookup j es))
            | inr e ↦ rw e refl
          ])

  -- At the close no order stays pending.
  pub lookup-cancel_all_pending_orders :
      (held : String → Option ℤ) (j : String) (t : TradingEngine F)
      → lookup j (cancel_all_pending_orders cfg clock held t).pending_orders ≡ none
  unfolding cancel_all_pending_orders
  lookup-cancel_all_pending_orders held j t =
      lookup-cancel_each held "market_close" j t.pending_orders t
      ∙ remaining_self (lookup j t.pending_orders)

  -- The clean-up of a cycle takes out exactly the pending orders that have reached the timeout, where
  -- a stock has one pending order at most.
  pub lookup-cleanup_stale_pending_orders :
      (held : String → Option ℤ) (j : String) (p : PendingOrder F) (t : TradingEngine F)
      → HasUniqueKeys t.pending_orders
      → lookup j t.pending_orders ≡ some p
      → lookup j (cleanup_stale_pending_orders cfg clock held t).pending_orders
        ≡ (if is_stale cfg clock t.cycle_count p then none else some p)
  unfolding cleanup_stale_pending_orders
  lookup-cleanup_stale_pending_orders held j p t u h =
      let q : PendingOrder F → Bool = is_stale cfg clock t.cycle_count in
      lookup-cancel_each held "stale_cleanup" j (keep (λ e. q e.1) t.pending_orders) t
      ∙ rw (lookup-picked q j p t.pending_orders u h, h) (remaining_picked (q p) p)

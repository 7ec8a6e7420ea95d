-- ===== src/Trading/Ledger/Orders.antt =====
-- How many orders a day has and how many of them are settled.
use Prim.Native.String.{String}
use text.Mathlib.Text.{◌==◌ as str_eq}
use kis_autotrader.Common.{
  count, count-snoc, ℕ, ◌+◌, ◌≡◌, refl, subst, Bool, true, false, Option, none, some, List, [], ◌∷◌,
  ◌++◌, arith, inl, inr, Bool-cases, if◌then◌else◌,
}
use kis_autotrader.Common.Texts.{str_eq_path}
use kis_autotrader.Common.Dict.{lookup, put, remove, lookup-remove, lookup-put}
use kis_autotrader.Common.Int.{ℤ}
use kis_autotrader.Float.{Float}
use kis_autotrader.Trading.{
  Side, PendingOrder, Trade, Event, submitted, cancelled, recorded, outcome, Config, TradingEngine,
  emit,
}
use kis_autotrader.Trading.Calls.{IsClosed}
use kis_autotrader.Trading.Ledger.{Fills}
use kis_autotrader.Trading.Ledger.Bookings.{book_buy-Fills, book_sell-Fills, book_orphan-Fills}

module _ {F : Type 0} where
  abbrev pub is_submission : String → Event F → Bool
  is_submission j (submitted side code order_no quantity) = str_eq code j
  is_submission j _ = false

  -- A fill that was recorded, or a cancellation, ends an order.
  abbrev pub is_settlement : String → Event F → Bool
  is_settlement j (recorded r) = str_eq r.stock_code j
  is_settlement j (cancelled code order_no reason) = str_eq code j
  is_settlement j _ = false

  -- The number of orders of a stock that are pending.
  abbrev pub open_of : String → List (String × PendingOrder F) → ℕ
  open_of j pending = elim (lookup j pending) [ none ↦ 0 | some p ↦ 1 ]

  -- As many orders of a stock as were recorded, cancelled or are pending.
  abbrev pub IsCounted : TradingEngine F → Type 0
  IsCounted t =
      (j : String)
      → count (is_submission j) t.events
        ≡ count (is_settlement j) t.events + open_of j t.pending_orders

  -- The stock of a key that the test finds equal is looked up alike.
  pub lookup_at :
      (j code : String) (d : List (String × PendingOrder F)) (o : Option (PendingOrder F))
      → lookup code d ≡ o
      → str_eq code j ≡ true
      → lookup j d ≡ o
  lookup_at j code d o h e = subst (λ k. lookup k d ≡ o) (str_eq_path code j e) h

  opened :
      (j code : String) (p : PendingOrder F) (d : List (String × PendingOrder F))
      → lookup code d ≡ none
      → open_of j (put code p d) ≡ (if str_eq code j then 1 else 0) + open_of j d
  opened j code p d h =
      rw (open_of, lookup-put j code p d)
        (elim (Bool-cases (str_eq code j)) [
          | inl e ↦ rw (open_of, e, lookup_at j code d none h e) (omega arith)
          | inr e ↦ rw e (omega arith)
        ])

  closed :
      (j code : String) (p : PendingOrder F) (d : List (String × PendingOrder F))
      → lookup code d ≡ some p
      → open_of j d ≡ (if str_eq code j then 1 else 0) + open_of j (remove code d)
  closed j code p d h =
      rw (open_of, lookup-remove j code d)
        (elim (Bool-cases (str_eq code j)) [
          | inl e ↦ rw (open_of, e, lookup_at j code d (some p) h e) (omega arith)
          | inr e ↦ rw e (omega arith)
        ])

  absent :
      (j code : String) (d : List (String × PendingOrder F))
      → lookup code d ≡ none
      → open_of j (remove code d) ≡ open_of j d
  absent j code d h =
      rw (open_of, lookup-remove j code d)
        (elim (Bool-cases (str_eq code j)) [
          | inl e ↦ rw (open_of, e, lookup_at j code d none h e) refl
          | inr e ↦ rw e refl
        ])

  -- One more call that leaves the engine.
  submits :
      (j : String) (es : List (Event F)) (e : Event F)
      → count (is_submission j) (es ++ (e ∷ []))
        ≡ count (is_submission j) es + (if is_submission j e then 1 else 0)
  submits j es e = count-snoc (is_submission j) es e

  settles :
      (j : String) (es : List (Event F)) (e : Event F)
      → count (is_settlement j) (es ++ (e ∷ []))
        ≡ count (is_settlement j) es + (if is_settlement j e then 1 else 0)
  settles j es e = count-snoc (is_settlement j) es e

  marked :
      (code label : String) (t : TradingEngine F)
      → IsCounted t
      → IsCounted (emit (outcome code label) t)
  marked code label t k j =
      ground (
        arith,
        submits j t.events (outcome code label),
        settles j t.events (outcome code label),
        k j,
      )

  tracked :
      (side : Side) (code order_no : String) (quantity : ℤ) (p : PendingOrder F)
      (t : TradingEngine F)
      → lookup code t.pending_orders ≡ none
      → IsCounted t
      → IsCounted (record t {
        pending_orders = put code p t.pending_orders;
        events = t.events ++ (submitted side code order_no quantity ∷ []);
      })
  tracked side code order_no quantity p t h k j =
      let e : Event F = submitted side code order_no quantity in
      ground
        (arith, submits j t.events e, settles j t.events e, opened j code p t.pending_orders h, k j)

  dropped :
      (code order_no reason : String) (p : PendingOrder F) (t : TradingEngine F)
      → lookup code t.pending_orders ≡ some p
      → IsCounted t
      → IsCounted (record t {
        pending_orders = remove code t.pending_orders;
        events = t.events ++ (cancelled code order_no reason ∷ []);
      })
  dropped code order_no reason p t h k j =
      let e : Event F = cancelled code order_no reason in
      ground
        (arith, submits j t.events e, settles j t.events e, closed j code p t.pending_orders h, k j)

module _ {F : Type 0} ⦃N : Float F⦄ where
  -- The fill of an order that was pending.
  settled :
      (code : String) (p : PendingOrder F) (r : Trade F) (t t' : TradingEngine F)
      → lookup code t.pending_orders ≡ some p
      → Fills code r t t'
      → IsCounted t
      → IsCounted t'
  settled code p r t t' h f k j =
      rw (f.events, f.pending)
        (ground (
          arith,
          submits j t.events (recorded r),
          settles j t.events (recorded r),
          f.stock,
          closed j code p t.pending_orders h,
          k j,
        ))

  -- The fill of an order that is submitted by the same call.
  filled_at_once :
      (side : Side) (code order_no : String) (quantity : ℤ) (r : Trade F) (t t' : TradingEngine F)
      → lookup code t.pending_orders ≡ none
      → Fills code r (emit (submitted side code order_no quantity) t) t'
      → IsCounted t
      → IsCounted t'
  filled_at_once side code order_no quantity r t t' h f k j =
      let e : Event F = submitted side code order_no quantity in
      rw (f.events, f.pending)
        (ground (
          arith,
          submits j t.events e,
          settles j t.events e,
          submits j (t.events ++ (e ∷ [])) (recorded r),
          settles j (t.events ++ (e ∷ [])) (recorded r),
          f.stock,
          absent j code t.pending_orders h,
          k j,
        ))

  -- Every call of the engine keeps the counts.
  pub IsCounted-IsClosed : (cfg : Config F) → IsClosed cfg (IsCounted {F = F})
  IsCounted-IsClosed cfg = record {
    marks = marked;
    observes = λ clock code price avg t k. k;
    blacklists = λ code t k. k;
    ticks = λ t k. k;
    limits = λ t k. k;
    screens = λ codes t k. k;
    fills_buy = λ clock a code order_no quantity filled price word t h k.
        filled_at_once Side.buys code order_no quantity _ t _ h
          (book_buy-Fills cfg clock a code filled price word _).1 k;
    fills_sell = λ clock a code order_no quantity filled price reason avg word t h k.
        filled_at_once Side.sells code order_no quantity _ t _ h
          (book_sell-Fills cfg clock a code filled price reason avg word _).1 k;
    tracks = λ clock a side code order_no name quantity before price avg word t h k.
        tracked side code order_no quantity _ t h k;
    orphans = λ clock code p filled t h k.
        settled code p _ t _ h (book_orphan-Fills cfg clock code p filled t).1 k;
    drops = λ clock code p reason t h k. dropped code p.order_no reason p t h k;
  }

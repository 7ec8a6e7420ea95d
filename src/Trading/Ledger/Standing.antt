-- ===== src/Trading/Ledger/Standing.antt =====
-- The order of a stock that the calls of a day leave open, by its number.
use Prim.Native.String.{String}
use text.Mathlib.Text.{◌==◌ as str_eq}
use text.Mathlib.TextPositions.{eq_refl}
use kis_autotrader.Common.{
  ◌≡◌, refl, ap, sym, ◌∙◌, Option, none, some, List, [], ◌∷◌, ◌++◌, inl, inr, Bool-cases,
  if◌then◌else◌,
}
use kis_autotrader.Common.Dict.{lookup, put, remove, lookup-remove, lookup-put}
use kis_autotrader.Common.Int.{ℤ}
use kis_autotrader.Float.{Float}
use kis_autotrader.Trading.{
  Side, PendingOrder, Trade, Event, submitted, cancelled, recorded, outcome, Config, TradingEngine,
  emit,
}
use kis_autotrader.Trading.Calls.{IsClosed}
use kis_autotrader.Trading.Ledger.{Fills}
use kis_autotrader.Trading.Ledger.Orders.{lookup_at}
use kis_autotrader.Trading.Ledger.Bookings.{book_buy-Fills, book_sell-Fills, book_orphan-Fills}

-- A stock has no open order or one; it is broken by a second order beside an open one, by a fill
-- without an open order, and by a cancellation of an order that is not the open one.
pub data Standing : Type 0 where
  idle : Standing
  ordered : (order_no : String) → Standing
  broken : Standing

abbrev pub place : String → Standing → Standing
place order_no Standing.idle = Standing.ordered order_no
place order_no _ = Standing.broken

abbrev pub fill : Standing → Standing
fill (Standing.ordered order_no) = Standing.idle
fill _ = Standing.broken

abbrev pub cancel : String → Standing → Standing
cancel order_no (Standing.ordered open_no) =
    if str_eq open_no order_no then Standing.idle else Standing.broken
cancel order_no _ = Standing.broken

module _ {F : Type 0} where
  abbrev pub moved_by : String → Event F → Standing → Standing
  moved_by j (submitted side code order_no quantity) s =
      if str_eq code j then place order_no s else s
  moved_by j (cancelled code order_no reason) s = if str_eq code j then cancel order_no s else s
  moved_by j (recorded r) s = if str_eq r.stock_code j then fill s else s
  moved_by j (outcome code label) s = s

  -- What the events make of a stock.
  abbrev pub standing : String → Standing → List (Event F) → Standing
  standing j s [] = s
  standing j s (e ∷ es) = standing j (moved_by j e s) es

  standing-snoc :
      (j : String) (s : Standing) (es : List (Event F)) (e : Event F)
      → standing j s (es ++ (e ∷ [])) ≡ moved_by j e (standing j s es)
  standing-snoc j s [] e = refl
  standing-snoc j s (d ∷ es) e = standing-snoc j (moved_by j d s) es e

  abbrev pub pending_of : Option (PendingOrder F) → Standing
  pending_of none = Standing.idle
  pending_of (some p) = Standing.ordered p.order_no

  -- For every stock: its orders were submitted one after the other, and each was, before the next
  -- one, recorded once or cancelled under its own number; only the last one may still be open, and
  -- is then the one that is pending for the stock, under its number.
  abbrev pub IsAccounted : TradingEngine F → Type 0
  IsAccounted t =
      (j : String) → standing j Standing.idle t.events ≡ pending_of (lookup j t.pending_orders)

  tracked :
      (side : Side) (code order_no : String) (quantity : ℤ) (p : PendingOrder F)
      (t : TradingEngine F)
      → p.order_no ≡ order_no
      → lookup code t.pending_orders ≡ none
      → IsAccounted t
      → IsAccounted (record t {
        pending_orders = put code p t.pending_orders;
        events = t.events ++ (submitted side code order_no quantity ∷ []);
      })
  tracked side code order_no quantity p t q h k j =
      standing-snoc j Standing.idle t.events (submitted side code order_no quantity)
      ∙ rw (lookup-put j code p t.pending_orders, k j)
          (elim (Bool-cases (str_eq code j)) [
            | inl e ↦
                rw (e, lookup_at j code t.pending_orders none h e) (ap Standing.ordered (sym q))
            | inr e ↦ rw e refl
          ])

  dropped :
      (code reason : String) (p : PendingOrder F) (t : TradingEngine F)
      → lookup code t.pending_orders ≡ some p
      → IsAccounted t
      → IsAccounted (record t {
        pending_orders = remove code t.pending_orders;
        events = t.events ++ (cancelled code p.order_no reason ∷ []);
      })
  dropped code reason p t h k j =
      standing-snoc j Standing.idle t.events (cancelled code p.order_no reason)
      ∙ rw (lookup-remove j code t.pending_orders, k j)
          (elim (Bool-cases (str_eq code j)) [
            | inl e ↦
                rw (e, lookup_at j code t.pending_orders (some p) h e)
                  (rw (eq_refl p.order_no) refl)
            | inr e ↦ rw e refl
          ])

module _ {F : Type 0} ⦃N : Float F⦄ where
  -- The fill of an order that was pending.
  settled :
      (code : String) (p : PendingOrder F) (r : Trade F) (t t' : TradingEngine F)
      → lookup code t.pending_orders ≡ some p
      → Fills code r t t'
      → IsAccounted t
      → IsAccounted t'
  settled code p r t t' h f k j =
      rw (f.events, f.pending)
        (standing-snoc j Standing.idle t.events (recorded r)
          ∙ rw (lookup-remove j code t.pending_orders, f.stock, k j)
              (elim (Bool-cases (str_eq code j)) [
                | inl e ↦ rw (e, lookup_at j code t.pending_orders (some p) h e) refl
                | inr e ↦ rw e refl
              ]))

  -- The fill of an order that is submitted by the same call.
  filled_at_once :
      (side : Side) (code order_no : String) (quantity : ℤ) (r : Trade F) (t t' : TradingEngine F)
      → lookup code t.pending_orders ≡ none
      → Fills code r (emit (submitted side code order_no quantity) t) t'
      → IsAccounted t
      → IsAccounted t'
  filled_at_once side code order_no quantity r t t' h f k j =
      let e : Event F = submitted side code order_no quantity in
      rw (f.events, f.pending)
        (standing-snoc j Standing.idle (t.events ++ (e ∷ [])) (recorded r)
          ∙ ap (moved_by j (recorded r)) (standing-snoc j Standing.idle t.events e)
          ∙ rw (lookup-remove j code t.pending_orders, f.stock, k j)
              (elim (Bool-cases (str_eq code j)) [
                | inl q ↦ rw (q, lookup_at j code t.pending_orders none h q) refl
                | inr q ↦ rw q refl
              ]))

  -- Every call of the engine accounts for its orders.
  pub IsAccounted-IsClosed : (cfg : Config F) → IsClosed cfg (IsAccounted {F = F})
  IsAccounted-IsClosed cfg = record {
    marks = λ code label t k j. standing-snoc j Standing.idle t.events (outcome code label) ∙ k j;
    observes = λ clock code price avg t k. k;
    blacklists = λ code t k. k;
    ticks = λ t k. k;
    limits = λ t k. k;
    screens = λ codes t k. k;
    fills_buy = λ clock a code order_no quantity filled price word t h k.
        filled_at_once Side.buys code order_no quantity _ t _ h
          (book_buy-Fills cfg clock a code filled price word _).1 k;
    fills_sell = λ clock a code order_no quantity filled price reason avg word t h k.
        filled_at_once Side.sells code order_no quantity _ t _ h
          (book_sell-Fills cfg clock a code filled price reason avg word _).1 k;
    tracks = λ clock a side code order_no name quantity before price avg word t h k.
        tracked side code order_no quantity _ t refl h k;
    orphans = λ clock code p filled t h k.
        settled code p _ t _ h (book_orphan-Fills cfg clock code p filled t).1 k;
    drops = λ clock code p reason t h k. dropped code reason p t h k;
  }

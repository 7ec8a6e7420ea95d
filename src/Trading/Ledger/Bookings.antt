-- ===== src/Trading/Ledger/Bookings.antt =====
-- The three places that book a fill: an order that is filled at once, on either side, and a pending
-- order that turns out to be filled.
use Prim.Native.String.{String}
use kis_autotrader.Common.{refl, Option, none, inl, inr}
use kis_autotrader.Common.Int.{ℤ}
use kis_autotrader.Float.{Float}
use kis_autotrader.Trading.{
  PendingOrder, Trade, Config, Clock, TradingEngine, norm_price, Side-cases,
}
use kis_autotrader.Trading.Orders.{book_orphan}
use kis_autotrader.Trading.Execution.{Answers, book_buy, book_sell}
use kis_autotrader.Trading.Ledger.{Fills, record_buy-Fills, record_sell-Fills}

module _ {F : Type 0} ⦃N : Float F⦄ (cfg : Config F) (clock : Clock F) where
  pub book_buy-Fills :
      (a : Answers) (code : String) (filled : ℤ) (price : F) (word : Option String)
      (t : TradingEngine F)
      → (r : Trade F) × Fills code r t (book_buy cfg clock a code filled price word t)
  book_buy-Fills a code filled price word t =
      record_buy-Fills cfg clock code filled (norm_price cfg price) "" word none t _ refl refl refl
        refl refl

  pub book_sell-Fills :
      (a : Answers) (code : String) (filled : ℤ) (price : F) (reason : String) (avg : Option F)
      (word : Option String) (t : TradingEngine F)
      → (r : Trade F) × Fills code r t (book_sell cfg clock a code filled price reason avg word t)
  book_sell-Fills a code filled price reason avg word t =
      let (r, f) =
        record_sell-Fills cfg clock code filled (norm_price cfg price) reason word avg t _ refl refl
          refl refl refl in
      (
        r,
        record {
          stock = f.stock;
          events = f.events;
          risk = f.risk;
          trades = f.trades;
          entries = f.entries;
          pending = f.pending;
        },
      )

  pub book_orphan-Fills :
      (code : String) (p : PendingOrder F) (filled : ℤ) (t : TradingEngine F)
      → (r : Trade F) × Fills code r t (book_orphan cfg clock code p filled t)
  book_orphan-Fills code p filled t = elim (Side-cases p.side) [
    | inl e ↦ rw e (
        record_buy-Fills cfg clock code filled (norm_price cfg p.price) "" none none t _ refl refl
          refl refl refl)
    | inr e ↦ rw e (
        record_sell-Fills cfg clock code filled (norm_price cfg p.price) "" p.signal_type
          p.avg_price t _ refl refl refl refl refl)
  ]

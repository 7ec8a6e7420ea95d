-- ===== src/Trading/Ledger/Booked.antt =====
-- The engine's daily state against the trades that it recorded.
use Prim.Native.String.{String}
use kis_autotrader.Common.{
  count, count-snoc, ◌≡◌, refl, ap, sym, ◌∙◌, [], ◌∷◌, ◌++◌, length, length-append, append_empty,
  arith,
}
use kis_autotrader.Float.{Float}
use kis_autotrader.Risk.Manager.{RiskManager}
use kis_autotrader.Trading.{
  Side, Trade, Event, submitted, cancelled, recorded, outcome, Config, TradingEngine, emit,
  get_count,
}
use kis_autotrader.Trading.Calls.{IsClosed}
use kis_autotrader.Trading.Ledger.{
  ledger, ledger-append, is_buy_of, settle_all, settle_all-snoc, Fills,
}
use kis_autotrader.Trading.Ledger.Bookings.{book_buy-Fills, book_sell-Fills, book_orphan-Fills}

module _ {F : Type 0} ⦃N : Float F⦄ where
  -- The daily state of an engine whose day began with the risk manager `m`: its risk, its number of
  -- trades and its number of buys of each stock are those of the trades that it recorded.
  pub record IsBooked (m : RiskManager F) (t : TradingEngine F) : Type 0 where
    pub risk : t.risk ≡ settle_all (ledger t.events) m
    pub trades : t.today_trade_count ≡ length (ledger t.events)
    pub entries :
        (code : String)
        → get_count code t.today_buys_per_stock ≡ count (is_buy_of code) (ledger t.events)

  -- A call that records nothing and leaves the daily state alone.
  unbooked :
      (m : RiskManager F) (e : Event F) (t t' : TradingEngine F)
      → ledger (e ∷ []) ≡ []
      → t'.events ≡ t.events ++ (e ∷ [])
      → t'.risk ≡ t.risk
      → t'.today_trade_count ≡ t.today_trade_count
      → t'.today_buys_per_stock ≡ t.today_buys_per_stock
      → IsBooked m t
      → IsBooked m t'
  unbooked m e t t' l es k n b h = record {
    risk = rw (k, same) h.risk;
    trades = rw (n, same) h.trades;
    entries = λ code. rw (b, same) (h.entries code);
  }
    where
      same : ledger t'.events ≡ ledger t.events
      same = ap ledger es ∙ ledger-append t.events (e ∷ []) ∙ rw l (append_empty (ledger t.events))

  -- A fill goes into the ledger and into the daily state.
  booked :
      (m : RiskManager F) (code : String) (r : Trade F) (t t' : TradingEngine F)
      → Fills code r t t'
      → IsBooked m t
      → IsBooked m t'
  booked m code r t t' f h = record {
    risk = rw (longer, f.risk, h.risk) (sym (settle_all-snoc (ledger t.events) r m));
    trades =
        rw (longer, f.trades) (ground (arith, h.trades, length-append (ledger t.events) (r ∷ [])));
    entries = λ j.
        rw longer
          (ground (arith, f.entries j, h.entries j, count-snoc (is_buy_of j) (ledger t.events) r));
  }
    where
      longer : ledger t'.events ≡ ledger t.events ++ (r ∷ [])
      longer = ap ledger f.events ∙ ledger-append t.events (recorded r ∷ [])

  fills :
      (m : RiskManager F) (code : String) (e : Event F) (r : Trade F) (t t' : TradingEngine F)
      → ledger (e ∷ []) ≡ []
      → Fills code r (emit e t) t'
      → IsBooked m t
      → IsBooked m t'
  fills m code e r t t' l f h =
      booked m code r (emit e t) t' f (unbooked m e t (emit e t) l refl refl refl refl h)

  -- Every call of the engine keeps its books.
  pub IsBooked-IsClosed : (cfg : Config F) (m : RiskManager F) → IsClosed cfg (IsBooked m)
  IsBooked-IsClosed cfg m = record {
    marks = λ code label t h. unbooked m (outcome code label) t _ refl refl refl refl refl h;
    observes = λ clock code price avg t h. moved t _ refl refl refl refl h;
    blacklists = λ code t h. moved t _ refl refl refl refl h;
    ticks = λ t h. moved t _ refl refl refl refl h;
    limits = λ t h. moved t _ refl refl refl refl h;
    screens = λ codes t h. moved t _ refl refl refl refl h;
    fills_buy = λ clock a code order_no quantity filled price word t p h.
        fills m code (submitted Side.buys code order_no quantity) _ t _ refl
          (book_buy-Fills cfg clock a code filled price word _).1 h;
    fills_sell = λ clock a code order_no quantity filled price reason avg word t p h.
        fills m code (submitted Side.sells code order_no quantity) _ t _ refl
          (book_sell-Fills cfg clock a code filled price reason avg word _).1 h;
    tracks = λ clock a side code order_no name quantity before price avg word t p h.
        unbooked m (submitted side code order_no quantity) t _ refl refl refl refl refl h;
    orphans = λ clock code p filled t e h.
        booked m code _ t _ (book_orphan-Fills cfg clock code p filled t).1 h;
    drops = λ clock code p reason t e h.
        unbooked m (cancelled code p.order_no reason) t _ refl refl refl refl refl h;
  }
    where
      moved :
          (t t' : TradingEngine F)
          → t'.events ≡ t.events
          → t'.risk ≡ t.risk
          → t'.today_trade_count ≡ t.today_trade_count
          → t'.today_buys_per_stock ≡ t.today_buys_per_stock
          → IsBooked m t
          → IsBooked m t'
      moved t t' es k n b h = record {
        risk = rw (k, es) h.risk;
        trades = rw (n, es) h.trades;
        entries = λ code. rw (b, es) (h.entries code);
      }

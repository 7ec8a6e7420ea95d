-- ===== src/Trading/Ledger.antt =====
-- The trades that a day records, and the engine's daily state as they determine it.
pub mod Bookings
pub mod Placed
pub mod Sold
pub mod Orders
pub mod Standing
pub mod Booked
pub mod Days
pub mod Restart
use Prim.Native.String.{String}
use text.Mathlib.Text.{◌==◌ as str_eq}
use kis_autotrader.Common.{
  count, count-snoc, ℕ, zero, suc, ◌+◌, ◌≡◌, refl, ap, subst, ◌∙◌, Bool, true, false, ◌&&◌, Option,
  none, some, List, [], ◌∷◌, ◌++◌, length, arith, inl, inr, Option-cases, Bool-cases, if◌then◌else◌,
}
use kis_autotrader.Common.Texts.{str_eq_path}
use kis_autotrader.Common.Dict.{lookup, put, remove, lookup-put}
use kis_autotrader.Common.Int.{ℤ}
use kis_autotrader.Float.{Float, of_ℕ}
use kis_autotrader.Python.{or_default}
use kis_autotrader.Risk.Manager.{RiskManager}
use kis_autotrader.Risk.Portfolio.{record_trade_result}
use kis_autotrader.Trading.{
  Side, Trade, Event, submitted, cancelled, recorded, outcome, Config, Clock, TradingEngine,
  get_count, increment, emit,
}
use kis_autotrader.Trading.Orders.{
  sell_reason_of, reconcile_sell_reason, positive_avg, profit_loss_amount_of, profit_loss_pct_of,
  trade_row, record_trade,
}
use kis_autotrader.Trading.Cycle.{is_realised_sell}

module _ {F : Type 0} where
  -- The trades that were recorded, oldest first.
  abbrev pub ledger : List (Event F) → List (Trade F)
  ledger [] = []
  ledger (recorded r ∷ es) = r ∷ ledger es
  ledger (submitted side code order_no quantity ∷ es) = ledger es
  ledger (cancelled code order_no reason ∷ es) = ledger es
  ledger (outcome code label ∷ es) = ledger es

  pub ledger-append : (es fs : List (Event F)) → ledger (es ++ fs) ≡ ledger es ++ ledger fs
  ledger-append [] fs = refl
  ledger-append (recorded r ∷ es) fs = ap (λ rs. r ∷ rs) (ledger-append es fs)
  ledger-append (submitted side code order_no quantity ∷ es) fs = ledger-append es fs
  ledger-append (cancelled code order_no reason ∷ es) fs = ledger-append es fs
  ledger-append (outcome code label ∷ es) fs = ledger-append es fs

  abbrev pub is_buy_of : String → Trade F → Bool
  is_buy_of code r = elim r.trade_type [ Side.buys ↦ str_eq r.stock_code code | Side.sells ↦ false ]

module _ {F : Type 0} ⦃N : Float F⦄ where
  -- The result of a realised sell goes into the risk manager.
  abbrev pub settle : Trade F → RiskManager F → RiskManager F
  settle r m =
      if is_realised_sell r
      then record_trade_result (or_default r.profit_loss_amount (of_ℕ 0)) m
      else m

  abbrev pub settle_all : List (Trade F) → RiskManager F → RiskManager F
  settle_all [] m = m
  settle_all (r ∷ rs) m = settle_all rs (settle r m)

  pub settle_all-snoc :
      (rs : List (Trade F)) (r : Trade F) (m : RiskManager F)
      → settle_all (rs ++ (r ∷ [])) m ≡ settle r (settle_all rs m)
  settle_all-snoc [] r m = refl
  settle_all-snoc (s ∷ rs) r m = settle_all-snoc rs r (settle s m)

-- A fill of an order of a stock, from the counts to the record of the trade.
pub record Fills {F : Type 0} ⦃N : Float F⦄ (code : String) (r : Trade F) (t t' : TradingEngine F)
    : Type 0 where
  pub stock : r.stock_code ≡ code
  pub events : t'.events ≡ t.events ++ (recorded r ∷ [])
  pub risk : t'.risk ≡ settle r t.risk
  pub trades : t'.today_trade_count ≡ suc t.today_trade_count
  pub entries :
      (j : String)
      → get_count j t'.today_buys_per_stock
        ≡ (if is_buy_of j r then 1 else 0) + get_count j t.today_buys_per_stock
  pub pending : t'.pending_orders ≡ remove code t.pending_orders

pub get_count-increment :
    (j key : String) (d : List (String × ℕ))
    → get_count j (increment key d) ≡ (if str_eq key j then 1 else 0) + get_count j d
get_count-increment j key d =
    rw (increment, get_count, lookup-put j key (suc (get_count key d)) d)
      (elim (Bool-cases (str_eq key j)) [
        | inl e ↦
            rw (get_count, e, subst (λ k. lookup k d ≡ lookup key d) (str_eq_path key j e) refl)
              (omega arith)
        | inr e ↦ rw e (omega arith)
      ])

module _ {F : Type 0} ⦃N : Float F⦄ (cfg : Config F) (clock : Clock F) where
  -- A record of a trade behind the counts of a buy.
  pub record_buy-Fills :
      (code : String) (quantity : ℤ) (price : F) (reason : String) (word : Option String)
      (avg : Option F) (t t₁ : TradingEngine F)
      → t₁.events ≡ t.events
      → t₁.risk ≡ t.risk
      → t₁.today_trade_count ≡ suc t.today_trade_count
      → t₁.today_buys_per_stock ≡ increment code t.today_buys_per_stock
      → t₁.pending_orders ≡ remove code t.pending_orders
      → (r : Trade F) × Fills code r t
          (record_trade cfg clock Side.buys code quantity price reason word avg t₁)
  unfolding record_trade
  record_buy-Fills code quantity price reason word avg t t₁ e k n b p =
      let r : Trade F =
        trade_row cfg clock Side.buys code quantity price none word none none t₁.cycle_count in
      (
        r,
        record {
          stock = refl;
          events = ap (λ es. es ++ (recorded r ∷ [])) e;
          risk = k;
          trades = n;
          entries = λ j. ap (get_count j) b ∙ get_count-increment j code t.today_buys_per_stock;
          pending = p;
        },
      )

  pub record_sell-Fills :
      (code : String) (quantity : ℤ) (price : F) (reason : String) (word : Option String)
      (avg : Option F) (t t₁ : TradingEngine F)
      → t₁.events ≡ t.events
      → t₁.risk ≡ t.risk
      → t₁.today_trade_count ≡ suc t.today_trade_count
      → t₁.today_buys_per_stock ≡ t.today_buys_per_stock
      → t₁.pending_orders ≡ remove code t.pending_orders
      → (r : Trade F) × Fills code r t
          (record_trade cfg clock Side.sells code quantity price reason word avg t₁)
  unfolding record_trade
  record_sell-Fills code quantity price reason word avg t t₁ e k n b p =
      elim (Option-cases (positive_avg avg)) [
        | inl h ↦
            let r : Trade F =
              trade_row cfg clock Side.sells code quantity price (sell_reason_of reason) word none
                none t₁.cycle_count in
            rw (record_trade, h)
              (
                r,
                record {
                  stock = refl;
                  events = ap (λ es. es ++ (recorded r ∷ [])) e;
                  risk = k;
                  trades = n;
                  entries = λ j. rw b (omega arith);
                  pending = p;
                },
              )
        | inr (a, h) ↦
            let pct : F = profit_loss_pct_of cfg clock price a in
            let amount : F = profit_loss_amount_of cfg clock quantity price a in
            let r : Trade F =
              trade_row cfg clock Side.sells code quantity price
                (reconcile_sell_reason pct (sell_reason_of reason)) word (some pct) (some amount)
                t₁.cycle_count in
            rw (record_trade, h)
              (
                r,
                record {
                  stock = refl;
                  events = ap (λ es. es ++ (recorded r ∷ [])) e;
                  risk = ap (record_trade_result amount) k;
                  trades = n;
                  entries = λ j. rw b (omega arith);
                  pending = p;
                },
              )
      ]

-- ===== src/Trading/Calls/Stocks.antt =====
-- The calls for one stock keep what is closed under the changes.
use Prim.Native.String.{String}
use kis_autotrader.Common.{
  Bool, true, false, Option, none, some, inl, inr, Option-cases, if◌then◌else◌,
}
use kis_autotrader.Common.Int.{pos, leb_ℤ}
use kis_autotrader.Float.{Float, of_ℕ}
use kis_autotrader.Python.{Result, ok, err, ◌>>=◌}
use kis_autotrader.Strategy.{SignalType, Signal}
use kis_autotrader.Risk.Gates.{calculate_position_size}
use kis_autotrader.Trading.{Config, Clock, TradingEngine}
use kis_autotrader.Trading.Execution.{Answers}
use kis_autotrader.Trading.Held.{Holding, observe, exit_reason, process_held_stock}
use kis_autotrader.Trading.Stock.{
  StockData, signal_case, min_ℤ, hold_signal, reject_reason, min_quantity, size_and_buy,
  process_buy, process_stock,
}
use kis_autotrader.Trading.Calls.{IsClosed, Fits}
use kis_autotrader.Trading.Calls.Pending.{if_Fits, emit-Fits}
use kis_autotrader.Trading.Calls.Placing.{execute_buy-Fits, execute_sell-Fits}

-- The predicate holds for the value of a call that does not raise.
abbrev pub Yields : {A : Type 0} → (A → Type 0) → Result A → Type 0
Yields P (ok x) = P x
Yields P (err e) = Unit

bind-Yields :
    {A B : Type 0}
    → (P : B → Type 0) (r : Result A) (k : A → Result B) → ((x : A) → Yields P (k x))
    → Yields P (r >>= k)
bind-Yields P (ok x) k h = h x
bind-Yields P (err e) k h = tt

module _ {F : Type 0} ⦃N : Float F⦄ {cfg : Config F} {K : TradingEngine F → Type 0}
    (c : IsClosed cfg K) where
  observe-Fits :
      (clock : Clock F) (code : String) (price avg : F) (t : TradingEngine F)
      → Fits K t
      → Fits K (observe clock code price avg t)
  observe-Fits clock code price avg t f = record {
    kept = c.observes clock code price avg t f.kept;
    unique = f.unique;
    restored = f.restored;
  }

  pub process_held_stock-Fits :
      (clock : Clock F) (a : Answers) (code name : String) (price : F) (h : Holding F)
      (signal : Signal F) (word : Option String) (t : TradingEngine F)
      → Fits K t
      → Fits K (process_held_stock cfg clock a code name price h signal word t)
  unfolding process_held_stock
  process_held_stock-Fits clock a code name price h signal word t f =
      if_Fits c (N.le price (of_ℕ 0)) _ _ f
        (elim (Option-cases (exit_reason cfg clock code price h signal t)) [
          | inl e ↦ rw e seen
          | inr (reason, e) ↦ rw e (
              execute_sell-Fits c clock a code h.quantity price reason (some h.avg_price) _ name _
                seen)
        ])
    where
      seen : Fits K (observe clock code price h.avg_price t)
      seen = observe-Fits clock code price h.avg_price t f

  size_and_buy-Yields :
      (clock : Clock F) (d : StockData F) (code : String) (deposit price : F) (t : TradingEngine F)
      → Fits K t
      → Yields (Fits K) (size_and_buy cfg clock d code deposit price t)
  size_and_buy-Yields clock d code deposit price t f =
      bind-Yields (Fits K) (calculate_position_size t.risk deposit price (min_quantity cfg clock)) _
        (λ quantity. if_Fits c (leb_ℤ quantity (pos 0)) _ _ f (elim (Option-cases d.buyable) [
          | inl e ↦ rw e f
          | inr (buyable, e) ↦ rw e (
              if_Fits c (leb_ℤ buyable (pos 0)) _ _ f (
                execute_buy-Fits c clock d.answers code d.stock_name (min_ℤ quantity buyable) price
                  d.signal_word t f))
        ]))

  process_buy-Yields :
      (clock : Clock F) (d : StockData F) (code : String) (deposit price : F) (signal : Signal F)
      (t : TradingEngine F)
      → Fits K t
      → Yields (Fits K) (process_buy cfg clock d code deposit price signal t)
  unfolding process_buy
  process_buy-Yields clock d code deposit price signal t f =
      elim (Option-cases (reject_reason cfg clock code signal deposit t)) [
        | inl e ↦ rw (process_buy, e) (size_and_buy-Yields clock d code deposit price t f)
        | inr (reason, e) ↦ rw (process_buy, e) (emit-Fits c code reason t f)
      ]

  by_signal :
      (s : SignalType) (x y z : Result (TradingEngine F))
      → Yields (Fits K) x
      → Yields (Fits K) y
      → Yields (Fits K) z
      → Yields (Fits K) (signal_case s x y z)
  by_signal SignalType.buy x y z p q r = p
  by_signal SignalType.sell x y z p q r = q
  by_signal SignalType.hold x y z p q r = r

  if_Yields :
      (b : Bool) (x y : Result (TradingEngine F))
      → Yields (Fits K) x
      → Yields (Fits K) y
      → Yields (Fits K) (if b then x else y)
  if_Yields true x y p q = p
  if_Yields false x y p q = q

  pub process_stock-Yields :
      (clock : Clock F) (d : StockData F) (code : String) (deposit : F)
      (holding : Option (Holding F)) (t : TradingEngine F)
      → Fits K t
      → Yields (Fits K) (process_stock cfg clock d code deposit holding t)
  unfolding process_stock
  process_stock-Yields clock d code deposit none t f = bind-Yields (Fits K) d.daily _ (λ has_bars.
      if_Yields has_bars _ _
        (bind-Yields (Fits K) d.quote _ (λ price. bind-Yields (Fits K) d.signal _ (λ signal.
          by_signal signal.signal_type _ _ _
            (process_buy-Yields clock d code deposit price signal t f) f f)))
        f)
  process_stock-Yields clock d code deposit (some h) t f =
      bind-Yields (Fits K) d.daily _ (λ has_bars.
        if_Yields has_bars _ _
          (bind-Yields (Fits K) d.quote _ (λ price. bind-Yields (Fits K) d.signal _ (λ signal.
            process_held_stock-Fits clock d.answers code d.stock_name price h signal d.signal_word t
              f)))
          (bind-Yields (Fits K) d.quote _ (λ price.
            process_held_stock-Fits clock d.answers code d.stock_name price h hold_signal none t
              f)))

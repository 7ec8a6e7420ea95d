-- ===== src/Backtest/Engine/Days.antt =====
-- The days of a backtest, each from a solvent broker to a solvent broker.
use Prim.Native.String.{String}
use kis_autotrader.Common.{
  suc, ◌≡◌, refl, ap, Bool, true, false, ◌&&◌, List, [], ◌∷◌, ◌++◌, arith, inl, inr, Bool-cases,
  Option-cases, if◌then◌else◌, length, All,
}
use kis_autotrader.Common.Int.{pos, leb_ℤ}
use kis_autotrader.Float.{Float, IsRounded, of_ℕ, ◌⊖◌, ◌⊘◌, ◌≼◌, ◌≺◌}
use kis_autotrader.Float.Laws.{lt_of_lt-le, le_of_lt, eq_zero_of_pos}
use kis_autotrader.Python.{Result, ok, err, ◌>>=◌, is_some}
use kis_autotrader.Strategy.{Signal}
use kis_autotrader.Backtest.Broker
use kis_autotrader.Common.Dict.{lookup}
use kis_autotrader.Backtest.Broker.{
  BacktestConfig, TradeRecord, VirtualBroker, check_stop_loss, check_take_profit,
}
use kis_autotrader.Backtest.Broker.Worth.{portfolio_value_nonneg}
use kis_autotrader.Backtest.Broker.Solvent.{IsSolvent, lookup-IsHeld, buy-IsSolvent, sell-IsSolvent}
use kis_autotrader.Backtest.Engine.{
  Row, broker_of, is_sell, is_buy, confident, process_signal, day, days,
}

module _ {F : Type 0} ⦃N : Float F⦄ where
  abbrev pub Keeps : Result (VirtualBroker F) → Type 0
  Keeps (ok b) = IsSolvent b
  Keeps (err e) = ⊥

  pub Keeps-ok :
      (r : Result (VirtualBroker F)) → Keeps r → (b : VirtualBroker F) × (r ≡ ok b) × IsSolvent b
  Keeps-ok (ok b) h = (b, refl, h)
  Keeps-ok (err e) h = absurd h

  Keeps-if :
      (c : Bool) (x y : Result (VirtualBroker F)) → Keeps x → Keeps y → Keeps (if c then x else y)
  Keeps-if true x y h k = h
  Keeps-if false x y h k = k

  Keeps-bind :
      (r : Result Bool) (f : Bool → Result (VirtualBroker F))
      → (c : Bool) × (r ≡ ok c)
      → ((c : Bool) → Keeps (f c))
      → Keeps (r >>= f)
  Keeps-bind r f (c, e) h = rw e (h c)

module _ {F : Type 0} ⦃N : Float F⦄ (laws : IsRounded F) where
  open laws use {zero-lt-one, of_ℤ_mono, to_int_le}

  broker_of-buy :
      (b : VirtualBroker F) (k : String) (price : F) (date : String)
      → IsSolvent b
      → of_ℕ 0 ≺ price
      → Keeps (broker_of (Broker.buy b k price date))
  broker_of-buy b k price date s h =
      let (r, b', e, s') = buy-IsSolvent laws b k price date s h in rw e s'

  pub broker_of-sell :
      (b : VirtualBroker F) (k : String) (price : F) (date : String)
      → IsSolvent b
      → of_ℕ 0 ≼ price
      → Keeps (broker_of (Broker.sell b k price date))
  broker_of-sell b k price date s h =
      let (r, b', e, s') = sell-IsSolvent laws b k price date s h in rw e s'

  check_stop_loss_ok :
      (b : VirtualBroker F) (k : String) (price : F)
      → IsSolvent b
      → (c : Bool) × (check_stop_loss b k price ≡ ok c)
  unfolding check_stop_loss
  check_stop_loss_ok b k price s = elim (Option-cases (lookup k b.positions)) [
    | inl e ↦ (false, rw (e, check_stop_loss))
    | inr (p, e) ↦ (
      N.le b.config.max_loss_rate ((p.avg_price ⊖ price) ⊘ p.avg_price),
      rw (e, check_stop_loss)
          (rw (eq_zero_of_pos laws p.avg_price (lookup-IsHeld k b.positions p s.held e).1)),
    )
  ]

  check_take_profit_ok :
      (b : VirtualBroker F) (k : String) (price : F)
      → IsSolvent b
      → (c : Bool) × (check_take_profit b k price ≡ ok c)
  unfolding check_take_profit
  check_take_profit_ok b k price s = elim (Option-cases (lookup k b.positions)) [
    | inl e ↦ (false, rw (e, check_take_profit))
    | inr (p, e) ↦ (
      N.le b.config.take_profit_ratio ((price ⊖ p.avg_price) ⊘ p.avg_price),
      rw (e, check_take_profit)
          (rw (eq_zero_of_pos laws p.avg_price (lookup-IsHeld k b.positions p s.held e).1)),
    )
  ]

  process_signal-Keeps :
      (b : VirtualBroker F) (signal : Signal F) (k : String) (price : F) (date : String)
      → IsSolvent b
      → of_ℕ 0 ≺ price
      → Keeps (process_signal b signal k price date)
  unfolding process_signal
  process_signal-Keeps b signal k price date s h =
      let sold = broker_of-sell b k price date s (le_of_lt laws (of_ℕ 0) price h) in
      Keeps-if (is_some (lookup k b.positions)) _ _
        (Keeps-bind (check_stop_loss b k price) _ (check_stop_loss_ok b k price s) (λ stop.
          Keeps-if stop _ _ sold (
            Keeps-bind (check_take_profit b k price) _ (check_take_profit_ok b k price s)
              (λ take_profit.
                Keeps-if take_profit _ _ sold
                  (Keeps-if (is_sell signal.signal_type && confident signal) _ _ sold s)))))
        (Keeps-if (is_buy signal.signal_type && confident signal) _ _
          (broker_of-buy b k price date s h) s)

  -- The strategy raises on no window that ends in a row with a price of 1 or more; no other window
  -- is shown to it.
  abbrev pub Answers : (List (Row F) → Result (Signal F)) → Type 0
  Answers analyze =
      (seen : List (Row F)) (row : Row F)
      → of_ℕ 1 ≼ N.of_ℤ (N.to_int row.close)
      → (signal : Signal F) × (analyze (seen ++ (row ∷ [])) ≡ ok signal)

  module _ (analyze : List (Row F) → Result (Signal F)) (answers : Answers analyze)
      (code : String) where
    day-Keeps :
        (seen : List (Row F)) (row : Row F) (b : VirtualBroker F)
        → IsSolvent b
        → Keeps (day analyze code (seen ++ (row ∷ [])) row b)
    day-Keeps seen row b s = elim (Bool-cases (leb_ℤ (N.to_int row.close) (pos 0))) [
      | inl skip ↦ rw skip s
      | inr trade ↦
          let price = N.of_ℤ (N.to_int row.close) in
          let unit : of_ℕ 1 ≼ price = of_ℤ_mono (pos 1) (N.to_int row.close) (ground arith) in
          let (signal, e) = answers seen row unit in
          rw (trade, e)
            (process_signal-Keeps b signal code price row.date s
              (lt_of_lt-le laws (of_ℕ 0) (of_ℕ 1) price zero-lt-one unit))
    ]

    pub days_lem :
        (seen rows : List (Row F)) (b : VirtualBroker F)
        → IsSolvent b
        → All (λ (r : Row F). of_ℕ 0 ≼ r.close) rows
        → (curve : List F) × (b' : VirtualBroker F) × (days analyze code seen rows b
            ≡ ok (curve, b'))
          × IsSolvent b'
          × (length curve ≡ length rows)
          × All (λ (x : F). of_ℕ 0 ≼ x) curve
    unfolding days
    days_lem seen [] b s prices = ([], b, refl, s, refl, tt)
    days_lem seen (row ∷ rows) b s (close, prices) =
        let window = seen ++ (row ∷ []) in
        let (b', e, s') = Keeps-ok (day analyze code window row b) (day-Keeps seen row b s) in
        let (curve, b'', f, s'', n, a) = days_lem window rows b' s' prices in
        let price = N.of_ℤ (N.to_int row.close) in
        let price_nonneg : of_ℕ 0 ≼ price =
          of_ℤ_mono (pos 0) (N.to_int row.close) (to_int_le row.close close).1 in
        (
          Broker.portfolio_value b' ((code, price) ∷ []) ∷ curve,
          b'',
          rw e (rw f),
          s'',
          ap suc n,
          (portfolio_value_nonneg laws b' ((code, price) ∷ []) s' (price_nonneg, tt), a),
        )

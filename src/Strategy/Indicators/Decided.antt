-- ===== src/Strategy/Indicators/Decided.antt =====
-- The signals that the strategies make of the values of their indicators are bounded.
use kis_autotrader.Common.{
  ◌≡◌, refl, Option, none, some, List, [], ◌∷◌, arith, inl, inr, ◌&&◌, Bool-cases,
}
use kis_autotrader.Float.{Float, IsRounded, of_ℕ, ◌⊕◌, ◌⊖◌, ◌⊗◌, ◌⊘◌, ◌≼◌, ◌≺◌, min_f, max_f, abs_f}
use kis_autotrader.Float.Laws.{
  of_ℕ_mono, of_ℕ_pos, min_bounds, div_nonneg, le_of_not_lt, le_of_lt, eq_zero_of_pos, div-le_one,
}
use kis_autotrader.Python.{ok}
use kis_autotrader.Strategy.{SignalType, mk_signal}
use kis_autotrader.Strategy.Indicators.{last_price, hold_signal}
use kis_autotrader.Strategy.Indicators.MovingAverage as MovingAverage
use kis_autotrader.Strategy.Indicators.Rsi as Rsi
use kis_autotrader.Strategy.Indicators.Macd as Macd
use kis_autotrader.Strategy.Indicators.Bollinger as Bollinger
use kis_autotrader.Ensemble.Confidence.{Yields, Yields-if, >>=-Yields}

module _ {F : Type 0} ⦃N : Float F⦄ (laws : IsRounded F) where
  mk_signal-Yields :
      (t : SignalType) (c : F) (target stop : Option F)
      → of_ℕ 0 ≼ c
      → c ≼ of_ℕ 1
      → Yields (mk_signal t c target stop)
  unfolding mk_signal
  mk_signal-Yields t c target stop h k = rw (h, k) (h, k)

  pub hold-Yields : Yields {F = F} hold_signal
  hold-Yields =
      mk_signal-Yields SignalType.hold (of_ℕ 0) none none (laws.le_refl (of_ℕ 0))
        (of_ℕ_mono laws 0 1 (omega arith))

  abs_nonneg : (x : F) → of_ℕ 0 ≼ abs_f x
  abs_nonneg x = elim (Bool-cases (N.lt x (of_ℕ 0))) [
    | inl e ↦ rw e (laws.neg_nonneg x (le_of_lt laws x (of_ℕ 0) e))
    | inr e ↦ rw e (le_of_not_lt laws (of_ℕ 0) x e)
  ]

  max_nonneg : (x : F) → of_ℕ 0 ≼ max_f x (of_ℕ 0)
  max_nonneg x = elim (Bool-cases (N.lt x (of_ℕ 0))) [
    | inl e ↦ rw e (laws.le_refl (of_ℕ 0))
    | inr e ↦ rw e (le_of_not_lt laws (of_ℕ 0) x e)
  ]

  pub last_price-ok : (c : F) (cs : List F) → (p : F) × (last_price (c ∷ cs) ≡ ok p)
  last_price-ok c [] = (c, refl)
  last_price-ok c (d ∷ ds) = last_price-ok d ds

  -- `max(min(x, 1), floor)` lies between the floor and 1.
  floor_bounds :
      (x floor : F)
      → of_ℕ 0 ≼ floor
      → floor ≼ of_ℕ 1
      → (of_ℕ 0 ≼ max_f (min_f x (of_ℕ 1)) floor) × (max_f (min_f x (of_ℕ 1)) floor ≼ of_ℕ 1)
  floor_bounds x floor h k = elim (Bool-cases (N.lt (of_ℕ 1) x)) [
    | inl e ↦ rw e (pick (of_ℕ 1) (laws.le_refl (of_ℕ 1)))
    | inr e ↦ rw e (pick x (le_of_not_lt laws x (of_ℕ 1) e))
  ]
    where
      pick : (y : F) → y ≼ of_ℕ 1 → (of_ℕ 0 ≼ max_f y floor) × (max_f y floor ≼ of_ℕ 1)
      pick y q = elim (Bool-cases (N.lt y floor)) [
        | inl e ↦ rw e (h, k)
        | inr e ↦ rw e (laws.le_trans (of_ℕ 0) floor y h (le_of_not_lt laws floor y e), q)
      ]

  pub Rsi-Yields :
      (s : Rsi.RsiStrategy F) (price : F) (rsi : Option F) → Yields (Rsi.decide s price rsi)
  unfolding Rsi.decide
  Rsi-Yields s price none = hold-Yields
  Rsi-Yields s price (some rsi) =
      Yields-if (N.lt rsi s.oversold) _ _
        (λ e. by_min SignalType.buy ((s.oversold ⊖ rsi) ⊘ s.oversold))
        (λ e.
          Yields-if (N.lt s.overbought rsi) _ _
            (λ f. by_min SignalType.sell ((rsi ⊖ s.overbought) ⊘ (of_ℕ 100 ⊖ s.overbought)))
            (λ f. hold-Yields))
    where
      by_min :
          (t : SignalType) (x : F)
          → Yields (mk_signal t (min_f (max_f x (of_ℕ 0)) (of_ℕ 1)) (some price) none)
      by_min t x =
          let (h, k) = min_bounds laws (max_f x (of_ℕ 0)) (max_nonneg x) in
          mk_signal-Yields t _ (some price) none h k

  Bollinger-Yields : (price sma lower upper : F) → Yields (Bollinger.breakout price sma lower upper)
  unfolding Bollinger.breakout
  Bollinger-Yields price sma lower upper =
      let b = Bollinger.percent_b price lower upper in
      Yields-if (N.le price lower) _ _ (λ e. by_floor SignalType.buy (of_ℕ 1 ⊖ b))
        (λ e.
          Yields-if (N.le upper price) _ _
            (λ f. by_floor SignalType.sell (b ⊖ of_ℕ 1 ⊕ Bollinger.half)) (λ f. hold-Yields))
    where
      by_floor :
          (t : SignalType) (x : F)
          → Yields (mk_signal t (max_f (min_f x (of_ℕ 1)) Bollinger.tenth) (some sma) none)
      by_floor t x =
          let (h, k) =
            floor_bounds x Bollinger.tenth
              (div_nonneg laws (of_ℕ 1) (of_ℕ 10) (of_ℕ_mono laws 0 1 (omega arith))
                (of_ℕ_pos laws 9))
              (div-le_one laws (of_ℕ 1) (of_ℕ 10) (of_ℕ_pos laws 9)
                (of_ℕ_mono laws 1 10 (omega arith))) in
          mk_signal-Yields t _ (some sma) none h k

  Macd-Yields :
      (price hist prev_hist : F)
      → of_ℕ 0 ≺ price ⊗ Macd.hundredth
      → Yields (Macd.crossing price hist prev_hist)
  unfolding Macd.crossing
  Macd-Yields price hist prev_hist p =
      Yields-if (N.le prev_hist (of_ℕ 0) && N.lt (of_ℕ 0) hist) _ _
        (λ e. >>=-Yields _ _ _ share (within SignalType.buy))
        (λ e.
          Yields-if (N.le (of_ℕ 0) prev_hist && N.lt hist (of_ℕ 0)) _ _
            (λ f. >>=-Yields _ _ _ share (within SignalType.sell)) (λ f. hold-Yields))
    where
      share :
          Macd.confidence_of price hist
          ≡ ok (min_f (abs_f hist ⊘ (price ⊗ Macd.hundredth)) (of_ℕ 1))
      share = rw (eq_zero_of_pos laws (price ⊗ Macd.hundredth) p) refl

      within :
          (t : SignalType)
          → Yields (
              mk_signal t
                (min_f (abs_f hist ⊘ (price ⊗ Macd.hundredth)) (of_ℕ 1))
                (some price)
                none)
      within t =
          let (h, k) =
            min_bounds laws (abs_f hist ⊘ (price ⊗ Macd.hundredth))
              (div_nonneg laws (abs_f hist) (price ⊗ Macd.hundredth) (abs_nonneg hist) p) in
          mk_signal-Yields t _ (some price) none h k

  MovingAverage-Yields :
      (s : MovingAverage.MovingAverageStrategy F) (closes : List F)
      (short long prev_short prev_long price : F)
      → of_ℕ 0 ≺ s.max_divergence
      → of_ℕ 0 ≺ long
      → last_price closes ≡ ok price
      → Yields (MovingAverage.numbers_signal s closes short long prev_short prev_long)
  unfolding MovingAverage.numbers_signal MovingAverage.crossing
  MovingAverage-Yields s closes short long prev_short prev_long price p l e =
      >>=-Yields _ _ _ rate (
        >>=-Yields price _ _ e (
          Yields-if (N.le prev_short prev_long && N.lt long short) _ _ (λ f. within SignalType.buy)
            (λ f.
              Yields-if (N.le prev_long prev_short && N.lt short long) _ _
                (λ g. within SignalType.sell) (λ g. hold-Yields))))
    where
      confidence : F
      confidence = min_f (abs_f (short ⊖ long) ⊘ long ⊘ s.max_divergence) (of_ℕ 1)

      rate : MovingAverage.confidence_of s.max_divergence short long ≡ ok confidence
      rate = rw (eq_zero_of_pos laws long l) refl

      within : (t : SignalType) → Yields (mk_signal t confidence (some price) none)
      within t =
          let (h, k) = min_bounds laws (abs_f (short ⊖ long) ⊘ long ⊘ s.max_divergence) (
            div_nonneg laws _ s.max_divergence
              (div_nonneg laws _ long (abs_nonneg (short ⊖ long)) l) p) in
          mk_signal-Yields t confidence (some price) none h k

  pub MovingAverage_decide-Yields :
      (s : MovingAverage.MovingAverageStrategy F) (closes : List F) (price : F)
      (a : MovingAverage.Averages F)
      → of_ℕ 0 ≺ s.max_divergence
      → last_price closes ≡ ok price
      → ((l : F) → a.current_long ≡ some l → of_ℕ 0 ≺ l)
      → Yields (MovingAverage.decide s closes a)
  MovingAverage_decide-Yields s closes price a p e l =
      by_values a.current_short a.current_long a.prev_short a.prev_long l
    where
      by_values :
          (x y z w : Option F)
          → ((l : F) → y ≡ some l → of_ℕ 0 ≺ l)
          → Yields (
              MovingAverage.decide s closes
                (record { current_short = x; current_long = y; prev_short = z; prev_long = w }))
      by_values none y z w l = hold-Yields
      by_values (some x) none z w l = hold-Yields
      by_values (some x) (some y) none w l = hold-Yields
      by_values (some x) (some y) (some z) none l = hold-Yields
      by_values (some x) (some y) (some z) (some w) l =
          MovingAverage-Yields s closes x y z w price p (l y refl) e

  pub Macd_decide-Yields :
      (price : F) (l : Macd.Lines F)
      → of_ℕ 0 ≺ price ⊗ Macd.hundredth
      → Yields (Macd.decide price l)
  Macd_decide-Yields price l p =
      by_values l.current_hist l.prev_hist l.current_macd l.current_signal
    where
      by_values :
          (x y z w : Option F)
          → Yields (
              Macd.decide price
                (record { current_hist = x; prev_hist = y; current_macd = z; current_signal = w }))
      by_values none y z w = hold-Yields
      by_values (some x) none z w = hold-Yields
      by_values (some x) (some y) none w = hold-Yields
      by_values (some x) (some y) (some z) none = hold-Yields
      by_values (some x) (some y) (some z) (some w) = Macd-Yields price x y p

  pub Bollinger_decide-Yields :
      (s : Bollinger.BollingerBandStrategy F) (price : F) (v : Bollinger.Deviation F)
      → Yields (Bollinger.decide s price v)
  Bollinger_decide-Yields s price v = by_values v.sma v.std
    where
      by_values : (x y : Option F) → Yields (Bollinger.decide s price (record { sma = x; std = y }))
      by_values none y = hold-Yields
      by_values (some x) none = hold-Yields
      by_values (some x) (some y) = Bollinger-Yields price x (x ⊖ s.num_std ⊗ y) (x ⊕ s.num_std ⊗ y)

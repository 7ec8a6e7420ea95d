-- ===== src/Backtest/Engine/Runs.antt =====
-- A backtest from its data to its result.
use Prim.Native.String.{String}
use kis_autotrader.Common.{
  ℕ, zero, suc, ◌-◌, ◌≤◌, ◌<◌, ◌≡◌, refl, ap, ◌∙◌, false, List, [], ◌∷◌, arith, inl, inr,
  Bool-cases, if◌then◌else◌, All, length, take, drop, ltb, length-drop,
}
use kis_autotrader.Common.Int.{pos, ◌≤ℤ◌}
use kis_autotrader.Float.{Float, IsRounded, of_ℕ, ◌≼◌}
use kis_autotrader.Python.{Result, ok, err, value_error, index_error, is_some}
use kis_autotrader.Strategy.{Signal}
use kis_autotrader.Backtest.Broker
use kis_autotrader.Common.Dict.{lookup}
use kis_autotrader.Backtest.Broker.{BacktestConfig, VirtualBroker}
use kis_autotrader.Backtest.Broker.Worth.{portfolio_value_nonneg}
use kis_autotrader.Backtest.Broker.Solvent.{IsSane, IsSolvent}
use kis_autotrader.Backtest.Engine.{
  Row, BacktestResult, broker_of, close_out, build_result, days, run, last, nth, set_last,
  min_window_size,
}
use kis_autotrader.Backtest.Engine.Days.{Answers, Keeps-ok, days_lem, broker_of-sell}

module _ {A : Type 0} where
  drop_all : (n : ℕ) (xs : List A) → length xs ≡ n → drop n xs ≡ []
  drop_all zero [] h = refl
  drop_all zero (x ∷ xs) h = absurd (omega arith)
  drop_all (suc n) [] h = refl
  drop_all (suc n) (x ∷ xs) h = drop_all n xs (omega arith)

  nth_ok : (n : ℕ) (xs : List A) → n < length xs → (x : A) × (nth n xs ≡ ok x)
  nth_ok zero [] h = absurd (omega arith)
  nth_ok zero (x ∷ xs) h = (x, refl)
  nth_ok (suc n) [] h = absurd (omega arith)
  nth_ok (suc n) (x ∷ xs) h = nth_ok n xs (omega arith)

  last_ok :
      (P : A → Type 0) (xs : List A) → 0 < length xs → All P xs → (x : A) × (last xs ≡ ok x) × P x
  last_ok P [] h a = absurd (omega arith)
  last_ok P (x ∷ []) h a = (x, refl, a.0)
  last_ok P (x ∷ y ∷ ys) h a = last_ok P (y ∷ ys) (omega arith) a.1

  length-set_last : (v : A) (xs : List A) → length (set_last v xs) ≡ length xs
  length-set_last v [] = refl
  length-set_last v (x ∷ []) = refl
  length-set_last v (x ∷ y ∷ ys) = ap suc (length-set_last v (y ∷ ys))

  set_last-All : (P : A → Type 0) (v : A) (xs : List A) → P v → All P xs → All P (set_last v xs)
  set_last-All P v [] h a = tt
  set_last-All P v (x ∷ []) h a = (h, tt)
  set_last-All P v (x ∷ y ∷ ys) h (p, a) = (p, set_last-All P v (y ∷ ys) h a)

  drop-All : (P : A → Type 0) (n : ℕ) (xs : List A) → All P xs → All P (drop n xs)
  drop-All P zero xs a = a
  drop-All P (suc n) [] a = tt
  drop-All P (suc n) (x ∷ xs) (p, a) = drop-All P n xs a

  AnyAll : (xs : List A) → All (λ _. Unit {0}) xs
  AnyAll [] = tt
  AnyAll (x ∷ xs) = (tt, AnyAll xs)

module _ {F : Type 0} ⦃N : Float F⦄ (analyze : List (Row F) → Result (Signal F))
    (code : String) where
  build_result-index_error :
      (rows : List (Row F)) (config : BacktestConfig F)
      → length rows ≡ min_window_size
      → build_result analyze code rows [] (Broker.init config) ≡ err index_error
  unfolding build_result Broker.init
  build_result-index_error rows config h =
      let (end, e, _) = last_ok (λ _. Unit {0}) rows (omega arith) (AnyAll rows) in
      rw e (rw (drop_all min_window_size rows h))

  -- With exactly as many rows as the window the length check passes and the run ends in an
  -- IndexError, whatever the strategy and the prices are; with fewer it ends in a ValueError.
  pub run_errors :
      (config : BacktestConfig F) (rows : List (Row F))
      → length rows ≤ min_window_size
      → run analyze code config rows
        ≡ (if ltb (length rows) min_window_size then err value_error else err index_error)
  unfolding run days
  run_errors config rows h = elim (Bool-cases (ltb (length rows) min_window_size)) [
    | inl short ↦ rw short
    | inr full ↦
        let exact : length rows ≡ min_window_size = ground arith in
        rw full
          (rw (drop_all min_window_size rows exact) (build_result-index_error rows config exact))
  ]

module _ {F : Type 0} ⦃N : Float F⦄ (laws : IsRounded F)
    (analyze : List (Row F) → Result (Signal F)) (answers : Answers laws analyze)
    (code : String) where
  open laws use {of_ℤ_mono}

  close_out_lem :
      (end : Row F) (curve : List F) (b : VirtualBroker F)
      → IsSolvent b
      → of_ℕ 0 ≼ end.close
      → All (λ (x : F). of_ℕ 0 ≼ x) curve
      → (curve' : List F) × (b' : VirtualBroker F) × (close_out analyze code end curve b
          ≡ ok (curve', b'))
        × IsSolvent b'
        × (length curve' ≡ length curve)
        × All (λ (x : F). of_ℕ 0 ≼ x) curve'
  close_out_lem end curve b s h a = elim (Bool-cases (is_some (lookup code b.positions))) [
    | inr free ↦ (curve, b, rw free, s, refl, a)
    | inl held ↦
        let (b', e, s') =
          Keeps-ok (broker_of (Broker.sell b code end.close end.date))
            (broker_of-sell laws b code end.close end.date s h) in
        let worth = Broker.portfolio_value b' ((code, end.close) ∷ []) in
        (
          set_last worth curve,
          b',
          rw held (rw e),
          s',
          length-set_last worth curve,
          set_last-All (λ (x : F). of_ℕ 0 ≼ x) worth curve
              (portfolio_value_nonneg laws b' ((code, end.close) ∷ []) s' (h, tt)) a,
        )
  ]

  -- With sane rates, a capital that is not negative, more rows than the window and no negative
  -- price, a backtest of a strategy that answers ends with a result: its final capital is not negative, and
  -- its equity curve has a value for each row behind the window, none of them negative.
  pub run_ok :
      (config : BacktestConfig F) (rows : List (Row F))
      → IsSane config
      → pos 0 ≤ℤ config.initial_capital
      → min_window_size < length rows
      → All (λ (r : Row F). of_ℕ 0 ≼ r.close) rows
      → (r : BacktestResult F) × (run analyze code config rows ≡ ok r)
        × (of_ℕ 0 ≼ r.final_capital)
        × (length r.equity_curve ≡ length rows - min_window_size)
        × All (λ (x : F). of_ℕ 0 ≼ x) r.equity_curve
  unfolding run build_result Broker.init
  run_ok config rows sane capital long prices =
      let start : IsSolvent (Broker.init config) = record {
        sane = sane;
        no_debt = of_ℤ_mono (pos 0) config.initial_capital capital;
        held = tt;
      } in
      let (curve, b, e, s, n, a) =
        days_lem laws analyze answers code (take min_window_size rows) (drop min_window_size rows)
          (Broker.init config) start
          (drop-All (λ (r : Row F). of_ℕ 0 ≼ r.close) min_window_size rows prices) in
      let (end, f, price) = last_ok (λ (r : Row F). of_ℕ 0 ≼ r.close) rows (omega arith) prices in
      let (curve', b', g, s', m, a') = close_out_lem end curve b s price a in
      let (first, k) = nth_ok min_window_size rows long in
      let behind : ltb (length rows) min_window_size ≡ false = ground arith in
      let result : BacktestResult F = record {
        start_date = first.date;
        end_date = end.date;
        final_capital = b'.cash;
        equity_curve = curve';
        trade_log = b'.trade_history;
      } in
      (
        result,
        rw behind (rw e (rw f (rw g (rw k)))),
        s'.no_debt,
        m ∙ n ∙ length-drop min_window_size rows,
        a',
      )

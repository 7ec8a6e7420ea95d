-- ===== src/Trading/Ledger/Restart.antt =====
-- The recovery after a restart against the engine that was not restarted.
use Prim.Native.String.{String}
use kis_autotrader.Common.{
  count, ℕ, ◌+◌, ◌≡◌, ◌≢◌, refl, ap, sym, ◌∙◌, Bool, true, false, none, List, [], ◌∷◌, length,
  arith, inl, inr, All, IsSortedBy, keep, if◌then◌else◌,
}
use kis_autotrader.Common.Dict.{lookup}
use kis_autotrader.Common.Int.{pos}
use kis_autotrader.Float.{Float, of_ℕ}
use kis_autotrader.Python.{or_default, ok}
use kis_autotrader.Risk.Manager.{RiskManager}
use kis_autotrader.Risk.Portfolio.{record_trades, record_trade_result, reset_daily_risk}
use kis_autotrader.Trading.{Trade, Config, TradingEngine, get_count, buys_of, Side-cases}
use kis_autotrader.Trading.Cycle.{
  insert_by_time, sort_by_time, is_realised_sell, restore_row, restore_rows, replayed,
  replay_amounts, replay_sells, restore_risk_state, pre_market, counters_cleared,
}
use kis_autotrader.Trading.Ledger.{ledger, is_buy_of, settle_all, get_count-increment}
use kis_autotrader.Trading.Ledger.Days.{Reaches, Reaches-IsBooked}

module _ {F : Type 0} ⦃N : Float F⦄ where
  -- Each trade is no later than the next.
  abbrev pub AreInTime : List (Trade F) → Type 0
  AreInTime rs = IsSortedBy (λ x y. N.le x.traded_at y.traded_at ≡ true) rs

  insert_by_time_first :
      (x : Trade F) (rs : List (Trade F)) → AreInTime (x ∷ rs) → insert_by_time x rs ≡ x ∷ rs
  insert_by_time_first x [] h = refl
  insert_by_time_first x (r ∷ rs) h = rw (h.0.0) refl

  sort_by_time_sorted : (rs : List (Trade F)) → AreInTime rs → sort_by_time rs ≡ rs
  sort_by_time_sorted [] h = refl
  sort_by_time_sorted (r ∷ rs) h = rw (sort_by_time_sorted rs h.1) (insert_by_time_first r rs h)

  module _ (cfg : Config F) where
    -- Results that the replay takes as they are, such as whole ones in the domestic market.
    abbrev pub AreReplayed : List (Trade F) → Type 0
    AreReplayed rs =
        All (λ r. replayed cfg r.profit_loss_amount ≡ or_default r.profit_loss_amount (of_ℕ 0)) rs

    settle_all-replay :
        (rs : List (Trade F)) (m : RiskManager F)
        → AreReplayed (keep is_realised_sell rs)
        → settle_all rs m ≡ record_trades (replay_amounts cfg (keep is_realised_sell rs)) m
    unfolding record_trades
    settle_all-replay [] m h = refl
    settle_all-replay (r ∷ rs) m h = by_kind (settle_all-replay rs) (is_realised_sell r) h
      where
        by_kind :
            ((m' : RiskManager F)
              → AreReplayed (keep is_realised_sell rs)
              → settle_all rs m' ≡ record_trades (replay_amounts cfg (keep is_realised_sell rs)) m')
            → (b : Bool)
            → AreReplayed (if b then r ∷ keep is_realised_sell rs else keep is_realised_sell rs)
            → settle_all rs
                (if b then record_trade_result (or_default r.profit_loss_amount (of_ℕ 0)) m else m)
              ≡ record_trades
                  (replay_amounts cfg
                    (if b then r ∷ keep is_realised_sell rs else keep is_realised_sell rs))
                  m
        by_kind rest true (whole, others) =
            rw whole
              (rest (record_trade_result (or_default r.profit_loss_amount (of_ℕ 0)) m) others)
        by_kind rest false others = rest m others

  -- A row changes the counts per stock and no risk.
  restore_row_lem :
      (today : ℕ) (r : Trade F) (code : String) (t : TradingEngine F)
      → let t' = restore_row today r t in
        (t'.risk ≡ t.risk)
        × (get_count code t'.today_buys_per_stock
            ≡ (if is_buy_of code r then 1 else 0) + get_count code t.today_buys_per_stock)
  unfolding restore_row
  restore_row_lem today r code t = elim (Side-cases r.trade_type) [
    | inl e ↦
        rw (restore_row, is_buy_of, e)
          (refl, get_count-increment code r.stock_code t.today_buys_per_stock)
    | inr e ↦ rw (restore_row, is_buy_of, e) (refl, omega arith)
  ]

  restore_rows_lem :
      (today : ℕ) (rs : List (Trade F)) (code : String) (t : TradingEngine F)
      → let t' = restore_rows today rs t in
        (t'.risk ≡ t.risk)
        × (get_count code t'.today_buys_per_stock
            ≡ count (is_buy_of code) rs + get_count code t.today_buys_per_stock)
  unfolding restore_rows
  restore_rows_lem today [] code t = (refl, omega arith)
  restore_rows_lem today (r ∷ rs) code t =
      let (k, n) = restore_rows_lem today rs code (restore_row today r t) in
      let (k', n') = restore_row_lem today r code t in (k ∙ k', n ∙ rw n' (omega arith))

  module _ (cfg : Config F) where
    -- The replay of at least one sell.
    replay_sells_lem :
        (peaks : List (String × F)) (n : ℕ) (sells : List (Trade F)) (t : TradingEngine F)
        → sells ≢ []
        → let t' = replay_sells cfg peaks n sells t in
          (t'.risk
            ≡ record_trades (replay_amounts cfg (sort_by_time sells)) (reset_daily_risk t.risk))
          × (t'.today_trade_count ≡ n)
          × (t'.today_buys_per_stock ≡ t.today_buys_per_stock)
    replay_sells_lem peaks n [] t h = absurd (h refl)
    replay_sells_lem peaks n (s ∷ sells) t h = (refl, refl, refl)

    -- The state that a restarted engine rebuilds from the rows of the day.
    restore_risk_state_lem :
        (today : ℕ) (peaks : List (String × F)) (rows : List (Trade F)) (u : TradingEngine F)
        → u.risk_state_restored ≡ false
        → keep is_realised_sell rows ≢ []
        → AreInTime (keep is_realised_sell rows)
        → AreReplayed cfg (keep is_realised_sell rows)
        → let u' = restore_risk_state cfg today peaks (ok rows) u in
          (u'.risk ≡ settle_all rows (reset_daily_risk u.risk))
          × (u'.today_trade_count ≡ length rows)
          × ((code : String) → get_count code u'.today_buys_per_stock ≡ count (is_buy_of code) rows)
    unfolding restore_risk_state lookup
    restore_risk_state_lem today peaks rows u fresh some_sell ordered whole =
        let sells : List (Trade F) = keep is_realised_sell rows in
        let cleared : TradingEngine F =
          counters_cleared (record u { risk_state_restored = true }) in
        let replay =
          replay_sells_lem peaks (length rows) sells (restore_rows today rows cleared) some_sell in
        rw (restore_risk_state, fresh)
          (
            replay.0
                ∙ rw ((restore_rows_lem today rows "" cleared).0, sort_by_time_sorted sells ordered)
                    (sym (settle_all-replay cfg rows (reset_daily_risk u.risk) whole)),
            replay.1,
            λ code.
                ap (get_count code) replay.2
                ∙ (restore_rows_lem today rows code cleared).1
                ∙ omega arith,
          )

    -- The same settings reset to the same risk.
    reset_daily_risk_cong :
        (m n : RiskManager F) → m.limits ≡ n.limits → reset_daily_risk m ≡ reset_daily_risk n
    unfolding reset_daily_risk
    reset_daily_risk_cong m n h =
        ap
          (λ limits. record {
            limits = limits;
            daily_peak_pnl = of_ℕ 0;
            daily_cumulative_pnl = of_ℕ 0;
            consecutive_losses = pos 0;
            portfolio_halted = false;
            halt_reason = none;
          })
          h

    -- An engine that starts again in the middle of a day and reads the day's trades has the risk, the
    -- number of trades and the buys of each stock of the engine that recorded them, if the limits are
    -- the same, at least one sell has a result, the sells stand in the order of time and the replay
    -- takes their results as they are.
    pub restore_risk_state-Reaches :
        (peaks : List (String × F)) (screened : List String) (saved : List (String × F)) (today : ℕ)
        (yesterday t u : TradingEngine F)
        → Reaches cfg (pre_market peaks screened yesterday) t
        → u.risk_state_restored ≡ false
        → u.risk.limits ≡ yesterday.risk.limits
        → keep is_realised_sell (ledger t.events) ≢ []
        → AreInTime (keep is_realised_sell (ledger t.events))
        → AreReplayed cfg (keep is_realised_sell (ledger t.events))
        → let u' = restore_risk_state cfg today saved (ok (ledger t.events)) u in
          (u'.risk ≡ t.risk)
          × (u'.today_trade_count ≡ t.today_trade_count)
          × ((code : String) → buys_of code u' ≡ buys_of code t)
    restore_risk_state-Reaches peaks screened saved today yesterday t u r fresh same some_sell
          ordered whole =
        let b = Reaches-IsBooked peaks screened yesterday t r in
        let (k, n, c) =
          restore_risk_state_lem today saved (ledger t.events) u fresh some_sell ordered whole in
        (
          k ∙ rw (reset_daily_risk_cong u.risk yesterday.risk same) (sym b.risk),
          n ∙ sym b.trades,
          λ code. c code ∙ sym (b.entries code),
        )

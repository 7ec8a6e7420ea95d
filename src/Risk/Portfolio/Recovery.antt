-- ===== src/Risk/Portfolio/Recovery.antt =====
-- A halt lasts until the reset, also over a restart in the middle of the day.
use Prim.Native.String.{String}
use kis_autotrader.Common.{◌≡◌, refl, true, Option, none, some, List, [], ◌∷◌, arith}
use kis_autotrader.Float.{Float}
use kis_autotrader.Risk.Manager.{RiskManager}
use kis_autotrader.Risk.Portfolio.{
  record_trade_result, record_trades, snapshot, restore, reason_or, reason_value,
}

reason_or-reason_value :
    (F : Type 0) (r old : Option String) → reason_or {F = F} (reason_value r) old ≡ r
reason_or-reason_value F none old = refl
reason_or-reason_value F (some r) old = refl

module _ {F : Type 0} ⦃N : Float F⦄ where
  -- Restoring a snapshot into a manager with the same limits gives back the manager that the
  -- snapshot was taken of, whatever state the other was in.
  pub restore-snapshot :
      (m fresh : RiskManager F) → fresh.limits ≡ m.limits → restore (snapshot m) fresh ≡ m
  unfolding restore snapshot
  restore-snapshot m fresh same = λ i. record m {
    limits = same i;
    halt_reason = reason_or-reason_value F m.halt_reason fresh.halt_reason i;
  }

  record_trade_result-halted :
      (t : F) (m : RiskManager F) {code : String}
      → m.portfolio_halted ≡ true
      → m.halt_reason ≡ some code
      → ((record_trade_result t m).portfolio_halted ≡ true)
        × ((record_trade_result t m).halt_reason ≡ some code)
  unfolding record_trade_result
  record_trade_result-halted t m h r = ground arith

  -- A halted manager stays halted for the reason that it has, whatever is sold afterwards.
  pub record_trades-halted :
      (ts : List F) (m : RiskManager F) {code : String}
      → m.portfolio_halted ≡ true
      → m.halt_reason ≡ some code
      → ((record_trades ts m).portfolio_halted ≡ true)
        × ((record_trades ts m).halt_reason ≡ some code)
  unfolding record_trades
  record_trades-halted [] m h r = (h, r)
  record_trades-halted (t ∷ ts) m h r =
      let (h', r') = record_trade_result-halted t m h r in
      record_trades-halted ts (record_trade_result t m) h' r'

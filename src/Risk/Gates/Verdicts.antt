-- ===== src/Risk/Gates/Verdicts.antt =====
-- What a verdict of the gates means.
use Prim.Native.String.{String}
use text.Mathlib.Text.{◌==◌ as str_eq}
use kis_autotrader.Common.{
  ◌⊎◌, ◌≡◌, ◌↔◌, Bool, true, false, not, ap, ◌∙◌, Option, some, none, refl, if◌then◌else◌, List, [],
  ◌∷◌, arith,
}
use kis_autotrader.Common.Int.{ℤ, ◌≤ℤ◌}
use kis_autotrader.Float.{Float, IsRounded, ◌≼◌, ◌≺◌, of_ℕ, ◌⊗◌, ◌⊘◌}
use kis_autotrader.Python.{Value, nothing, bool, get, is_some, ok}
use kis_autotrader.Strategy.{SignalType, Signal}
use kis_autotrader.Risk.Manager.{Settings, RiskManager}
use kis_autotrader.Risk.Portfolio.{
  max_daily_drawdown_code, max_daily_loss_code, max_consecutive_losses_code, record_trades,
  reset_daily_risk, restore,
}
use kis_autotrader.Risk.Portfolio.History.{newest_first, first_breach, breach, record_trades-reset}
use kis_autotrader.Risk.Exits.{Time}
use kis_autotrader.Risk.Gates.{check_buy_gates, validate_order, calculate_position_size}

-- The code is not the empty text, which `or` would replace.
abbrev IsNonempty : Option String → Type 0
IsNonempty none = Unit
IsNonempty (some code) = str_eq code "" ≡ false

ladder :
    (a b c : Bool)
    → IsNonempty (
        if a
        then some max_daily_drawdown_code
        else if b
        then some max_daily_loss_code
        else if c
        then some max_consecutive_losses_code
        else none)
ladder true b c = refl
ladder false true c = refl
ladder false false true = refl
ladder false false false = tt

or_else-IsNonempty :
    (a b : Option String)
    → IsNonempty a
    → IsNonempty b
    → IsNonempty (elim a [ none ↦ b | some r ↦ some r ])
or_else-IsNonempty none b p q = q
or_else-IsNonempty (some r) b p q = p

module _ {F : Type 0} ⦃N : Float F⦄ where
  -- For a buy on a manager that is not halted, the gates let the order through exactly when
  -- `validate_order` accepts it.
  pub check_buy_gates-validate_order :
      (m : RiskManager F) (now : Time) (s : Signal F) (balance : F)
      → s.signal_type ≡ SignalType.buy
      → m.portfolio_halted ≡ false
      → (check_buy_gates m now s balance ≡ none) ↔ (validate_order m now s balance ≡ ok true)
  unfolding check_buy_gates validate_order
  check_buy_gates-validate_order m now s balance b h = ground arith

  breach-IsNonempty : (limits : Settings F) (h : List F) → IsNonempty (breach limits h)
  breach-IsNonempty limits h = ladder _ _ _

  first_breach-IsNonempty : (limits : Settings F) (h : List F) → IsNonempty (first_breach limits h)
  first_breach-IsNonempty limits [] = tt
  first_breach-IsNonempty limits (t ∷ older) =
      or_else-IsNonempty (first_breach limits older) (breach limits (t ∷ older))
        (first_breach-IsNonempty limits older) (breach-IsNonempty limits (t ∷ older))

  -- The gates refuse with the code of the first limit that the day's sells broke, whatever the
  -- signal's price and confidence, the balance and the time are.
  pub first_breach-check_buy_gates :
      (m : RiskManager F) (ts : List F) (now : Time) (s : Signal F) (balance : F) {code : String}
      → s.signal_type ≡ SignalType.buy
      → first_breach m.limits (newest_first ts []) ≡ some code
      → check_buy_gates (record_trades ts (reset_daily_risk m)) now s balance ≡ some code
  unfolding check_buy_gates
  first_breach-check_buy_gates m ts now s balance {code} b e =
      let m' = record_trades ts (reset_daily_risk m) in
      let (day, same) = record_trades-reset ts m in
      let broke : first_breach m'.limits (newest_first ts []) ≡ some code = rw same e in
      let nonempty : IsNonempty (some code) =
        rw e at (first_breach-IsNonempty m.limits (newest_first ts [])) in
      let halted : m'.portfolio_halted ≡ true = day.halted ∙ ap is_some broke in
      rw b (rw halted (rw (day.reason ∙ broke) (rw nonempty)))

  -- A manager restored as halted from a state without the reason's key gives the code of a losing
  -- run, also if it knew another reason before: a missing key clears the reason.
  pub restore-check_buy_gates :
      (m : RiskManager F) (state : List (String × Value F)) (now : Time) (s : Signal F)
      (balance : F)
      → s.signal_type ≡ SignalType.buy
      → get state "portfolio_halted" ≡ bool true
      → get state "halt_reason" ≡ nothing
      → check_buy_gates (restore state m) now s balance ≡ some max_consecutive_losses_code
  unfolding check_buy_gates restore
  restore-check_buy_gates m state now s balance b h r = simp (b, h, r)

module _ {F : Type 0} ⦃N : Float F⦄ (laws : IsRounded F) where
  open laws use {
    le_refl, le_trans, le_total, lt-eq-not_le, mul_mono, mul_zero, div_mono, zero_div, to_int_le,
  }

  le_of_not_le : (x : F) → N.le x (of_ℕ 0) ≡ false → of_ℕ 0 ≼ x
  le_of_not_le x h = ground (arith, le_total (of_ℕ 0) x)

  share_nonneg :
      (balance ratio price : F)
      → of_ℕ 0 ≼ ratio
      → N.le balance (of_ℕ 0) ≡ false
      → N.le price (of_ℕ 0) ≡ false
      → of_ℕ 0 ≼ (balance ⊗ ratio) ⊘ price
  share_nonneg balance ratio price r b p =
      let above : of_ℕ 0 ≺ price = rw (lt-eq-not_le (of_ℕ 0) price) (ap not p) in
      let funds : of_ℕ 0 ≼ balance = le_of_not_le balance b in
      let product : of_ℕ 0 ≼ balance ⊗ ratio =
        le_trans (of_ℕ 0) (balance ⊗ of_ℕ 0) (balance ⊗ ratio) (mul_zero balance).1
          (mul_mono balance balance (of_ℕ 0) ratio funds (le_refl balance) (le_refl (of_ℕ 0)) r) in
      le_trans (of_ℕ 0) (of_ℕ 0 ⊘ price) ((balance ⊗ ratio) ⊘ price) (zero_div price above).1
        (div_mono (of_ℕ 0) (balance ⊗ ratio) price above product)

  -- A position that is sized has the smallest quantity asked for, or a larger one that is at most
  -- the balance's share divided by the price; the balance and the price are positive.
  pub calculate_position_size_bounds :
      (m : RiskManager F) (balance price : F) (least q : ℤ)
      → of_ℕ 0 ≼ m.limits.max_position_ratio
      → calculate_position_size m balance price least ≡ ok q
      → (of_ℕ 0 ≺ balance)
        × (of_ℕ 0 ≺ price)
        × (least ≤ℤ q)
        × ((q ≡ least) ⊎ (N.of_ℤ q ≼ (balance ⊗ m.limits.max_position_ratio) ⊘ price))
  unfolding calculate_position_size
  calculate_position_size_bounds m balance price least q ratio e =
      let x = (balance ⊗ m.limits.max_position_ratio) ⊘ price in
      ground (
        arith,
        share_nonneg balance m.limits.max_position_ratio price,
        to_int_le x,
        lt-eq-not_le (of_ℕ 0) balance,
        lt-eq-not_le (of_ℕ 0) price,
      )

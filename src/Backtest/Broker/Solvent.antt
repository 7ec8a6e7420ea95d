-- ===== src/Backtest/Broker/Solvent.antt =====
-- The broker never spends cash that it does not have, and never divides by zero.
use Prim.Native.String.{String}
use text.Mathlib.Text.{◌==◌ as str_eq}
use kis_autotrader.Common.{
  ◌≡◌, refl, false, Option, some, List, [], ◌∷◌, arith, inl, inr, Bool-cases, Option-cases, All,
  All-append,
}
use kis_autotrader.Common.Int.{ℤ, pos, ◌≤ℤ◌, ◌-ℤ◌, leb_ℤ}
use kis_autotrader.Float.{Float, IsRounded, of_ℕ, ◌⊕◌, ◌⊖◌, ◌⊗◌, ◌⊘◌, ◌≼◌, ◌≺◌}
use kis_autotrader.Float.Laws.{
  le_of_not_lt, lt_of_lt-le, le_of_lt, eq_zero_of_pos, add_nonneg, le-add_right, mul_nonneg,
  sub_nonneg,
}
use kis_autotrader.Python.{Result, ok, err}
use kis_autotrader.Common.Dict.{lookup, remove}
use kis_autotrader.Backtest.Broker.{
  BacktestConfig, Position, TradeRecord, VirtualBroker, commission_of, cost_of, fill_buy, try_buy,
  bought_price, buy, sold_price, sell,
}

module _ {F : Type 0} ⦃N : Float F⦄ where
  -- Rates that are shares.
  pub record IsSane (c : BacktestConfig F) : Type 0 where
    pub commission_low : of_ℕ 0 ≼ c.commission_rate
    pub commission_high : c.commission_rate ≼ of_ℕ 1
    pub slippage_low : of_ℕ 0 ≼ c.slippage_rate
    pub slippage_high : c.slippage_rate ≼ of_ℕ 1

  abbrev pub IsHeld : String × Position F → Type 0
  IsHeld (_, p) = (pos 1 ≤ℤ p.quantity) × (of_ℕ 0 ≺ p.avg_price)

  -- No debt, and every position holds shares that cost something.
  pub record IsSolvent (b : VirtualBroker F) : Type 0 where
    pub sane : IsSane b.config
    pub no_debt : of_ℕ 0 ≼ b.cash
    pub held : All IsHeld b.positions

  -- The broker after a call that does not raise.
  abbrev pub Returns : {A : Type 0} → Result (A × VirtualBroker F) → Type 0
  Returns (ok (a, b)) = IsSolvent b
  Returns (err e) = ⊥

  pub lookup-IsHeld :
      (k : String) (d : List (String × Position F)) (p : Position F)
      → All IsHeld d
      → lookup k d ≡ some p
      → IsHeld (k, p)
  unfolding lookup
  lookup-IsHeld k [] p h e = absurd (ground arith)
  lookup-IsHeld k ((j, q) ∷ d) p (h, hs) e = ground (arith, lookup-IsHeld k d p hs)

  remove-IsHeld :
      (k : String) (d : List (String × Position F)) → All IsHeld d → All IsHeld (remove k d)
  unfolding remove
  remove-IsHeld k [] h = tt
  remove-IsHeld k ((j, q) ∷ d) (h, hs) = elim (Bool-cases (str_eq j k)) [
    | inl e ↦ rw e (remove-IsHeld k d hs)
    | inr e ↦ rw e (h, remove-IsHeld k d hs)
  ]

module _ {F : Type 0} ⦃N : Float F⦄ (laws : IsRounded F) where
  open laws use {le_refl, le_trans, mul_mono, mul_one, of_ℤ_mono}

  ratio_nonneg :
      (b : VirtualBroker F) (price : F)
      → IsSane b.config
      → of_ℕ 0 ≺ price
      → of_ℕ 0 ≺ bought_price b price
  ratio_nonneg b price s h =
      let p0 = le_of_lt laws (of_ℕ 0) price h in
      let grown : of_ℕ 1 ≼ of_ℕ 1 ⊕ b.config.slippage_rate =
        le-add_right laws (of_ℕ 1) b.config.slippage_rate s.slippage_low in
      lt_of_lt-le laws (of_ℕ 0) price (bought_price b price) h (
        le_trans price (price ⊗ of_ℕ 1) (bought_price b price) (mul_one price).1 (
          mul_mono price price (of_ℕ 1) (of_ℕ 1 ⊕ b.config.slippage_rate) p0 (le_refl price)
            (of_ℤ_mono (pos 0) (pos 1) (omega arith)) grown))

  fill_buy-IsSolvent :
      (b : VirtualBroker F) (k : String) (price : F) (date : String) (q : ℤ)
      → IsSolvent b
      → of_ℕ 0 ≺ price
      → leb_ℤ q (pos 0) ≡ false
      → N.lt b.cash (cost_of b price q) ≡ false
      → IsSolvent (fill_buy b k price date q).1
  fill_buy-IsSolvent b k price date q s h many fits = record {
    sane = s.sane;
    no_debt =
        sub_nonneg laws b.cash (cost_of b price q)
          (le_of_not_lt laws (cost_of b price q) b.cash fits);
    held = All-append IsHeld b.positions _ s.held ((ground arith, h), tt);
  }

  try_buy-IsSolvent :
      (b : VirtualBroker F) (k : String) (price : F) (date : String) (q : ℤ)
      → IsSolvent b
      → of_ℕ 0 ≺ price
      → IsSolvent (try_buy b k price date q).1
  try_buy-IsSolvent b k price date q s h =
      let fewer = q -ℤ pos 1 in
      elim (Bool-cases (leb_ℤ q (pos 0))) [
        | inl few ↦ rw few s
        | inr many ↦ rw many (elim (Bool-cases (N.lt b.cash (cost_of b price q))) [
          | inr fits ↦ rw fits (fill_buy-IsSolvent b k price date q s h many fits)
          | inl short ↦ rw short (elim (Bool-cases (leb_ℤ fewer (pos 0))) [
            | inl few ↦ rw few s
            | inr enough ↦ rw enough (elim (Bool-cases (N.lt b.cash (cost_of b price fewer))) [
              | inl still ↦ rw still s
              | inr fits ↦ rw fits (fill_buy-IsSolvent b k price date fewer s h enough fits)
            ])
          ])
        ])
      ]

  Returns-ok :
      {A : Type 0} (r : Result (A × VirtualBroker F))
      → Returns r
      → (a : A) × (b : VirtualBroker F) × (r ≡ ok (a, b)) × IsSolvent b
  Returns-ok (ok (a, b)) h = (a, b, refl, h)
  Returns-ok (err e) h = absurd h

  -- A buy at a positive price never raises, and leaves a solvent broker: the cash stays at or above
  -- zero, commission and slippage included.
  pub buy-IsSolvent :
      (b : VirtualBroker F) (k : String) (price : F) (date : String)
      → IsSolvent b
      → of_ℕ 0 ≺ price
      → (r : Option (TradeRecord F)) × (b' : VirtualBroker F) × (buy b k price date ≡ ok (r, b'))
        × IsSolvent b'
  unfolding buy
  buy-IsSolvent b k price date s h =
      Returns-ok (buy b k price date) (elim (Option-cases (lookup k b.positions)) [
        | inr (p, e) ↦ rw (e, buy) s
        | inl e ↦
            let adjusted = ratio_nonneg b price s.sane h in
            rw (e, buy)
              (rw (eq_zero_of_pos laws (bought_price b price) adjusted) (
                try_buy-IsSolvent b k (bought_price b price) date
                  (N.to_int ((b.cash ⊗ b.config.max_position_ratio) ⊘ bought_price b price)) s
                  adjusted))
      ])

  sold_nonneg :
      (b : VirtualBroker F) (price : F)
      → IsSane b.config
      → of_ℕ 0 ≼ price
      → of_ℕ 0 ≼ sold_price b price
  sold_nonneg b price s h =
      mul_nonneg laws price (of_ℕ 1 ⊖ b.config.slippage_rate) h
        (sub_nonneg laws (of_ℕ 1) b.config.slippage_rate s.slippage_high)

  -- The commission takes no more than the sale brings in.
  proceeds_nonneg :
      (b : VirtualBroker F) (price : F) (q : ℤ)
      → IsSane b.config
      → of_ℕ 0 ≼ price
      → pos 1 ≤ℤ q
      → of_ℕ 0 ≼ price ⊗ N.of_ℤ q ⊖ commission_of b price q
  proceeds_nonneg b price q s h many =
      let gross = price ⊗ N.of_ℤ q in
      let g0 : of_ℕ 0 ≼ gross =
        mul_nonneg laws price (N.of_ℤ q) h (of_ℤ_mono (pos 0) q (omega arith)) in
      let part : commission_of b price q ≼ gross =
        le_trans (commission_of b price q) (gross ⊗ of_ℕ 1) gross
          (mul_mono gross gross b.config.commission_rate (of_ℕ 1) g0 (le_refl gross)
            s.commission_low s.commission_high)
          (mul_one gross).0 in
      sub_nonneg laws gross (commission_of b price q) part

  -- A sale at a price that is not negative never raises, and leaves a solvent broker.
  pub sell-IsSolvent :
      (b : VirtualBroker F) (k : String) (price : F) (date : String)
      → IsSolvent b
      → of_ℕ 0 ≼ price
      → (r : Option (TradeRecord F)) × (b' : VirtualBroker F) × (sell b k price date ≡ ok (r, b'))
        × IsSolvent b'
  unfolding sell
  sell-IsSolvent b k price date s h =
      Returns-ok (sell b k price date) (elim (Option-cases (lookup k b.positions)) [
        | inl e ↦ rw (e, sell) s
        | inr (p, e) ↦
            let (many, paid) = lookup-IsHeld k b.positions p s.held e in
            rw (e, sell)
              (rw (eq_zero_of_pos laws p.avg_price paid) (record {
                sane = s.sane;
                no_debt = add_nonneg laws b.cash _ s.no_debt (
                    proceeds_nonneg b (sold_price b price) p.quantity s.sane
                      (sold_nonneg b price s.sane h) many);
                held = remove-IsHeld k b.positions s.held;
              }))
      ])

-- ===== src/Backtest/Broker/Worth.antt =====
-- The value of a solvent portfolio.
use Prim.Native.String.{String}
use text.Mathlib.Text.{◌==◌ as str_eq}
use kis_autotrader.Common.{
  subst, ◌≡◌, List, [], ◌∷◌, All, none, some, inl, inr, Option-cases, Bool-cases, arith,
}
use kis_autotrader.Common.Int.{pos}
use kis_autotrader.Common.Dict.{lookup}
use kis_autotrader.Float.{Float, IsRounded, of_ℕ, ◌≼◌}
use kis_autotrader.Float.Laws.{add_nonneg, mul_nonneg, le_of_lt}
use kis_autotrader.Backtest.Broker.{Position, VirtualBroker, stock_value, portfolio_value}
use kis_autotrader.Backtest.Broker.Solvent.{IsHeld, IsSolvent}

lookup-All :
    {A : Type 0}
    → (P : A → Type 0) (k : String) (d : List (String × A)) (a : A)
    → All (λ (q : String × A). P q.1) d
    → lookup k d ≡ some a
    → P a
unfolding lookup
lookup-All P k [] a h e = absurd (ground arith)
lookup-All P k ((j, b) ∷ d) a (h, hs) e = elim (Bool-cases (str_eq j k)) [
  | inl q ↦ let same : b ≡ a = ground arith in subst P same h
  | inr q ↦ lookup-All P k d a hs (rw q at e)
]

module _ {F : Type 0} ⦃N : Float F⦄ (laws : IsRounded F) where
  price_nonneg :
      (prices : List (String × F)) (p : Position F)
      → All (λ (q : String × F). of_ℕ 0 ≼ q.1) prices
      → of_ℕ 0 ≼ p.avg_price
      → of_ℕ 0 ≼ elim (lookup p.stock_code prices) [ none ↦ p.avg_price | some price ↦ price ]
  price_nonneg prices p a h = elim (Option-cases (lookup p.stock_code prices)) [
    | inl e ↦ rw e h
    | inr (price, e) ↦ rw e (lookup-All (λ (x : F). of_ℕ 0 ≼ x) p.stock_code prices price a e)
  ]

  stock_value_nonneg :
      (held : List (String × Position F)) (acc : F) (prices : List (String × F))
      → of_ℕ 0 ≼ acc
      → All (λ (q : String × F). of_ℕ 0 ≼ q.1) prices
      → All IsHeld held
      → of_ℕ 0 ≼ stock_value acc prices held
  stock_value_nonneg [] acc prices h a k = h
  stock_value_nonneg ((code, p) ∷ rest) acc prices h a ((quantity, cost), k) =
      stock_value_nonneg rest _ prices
        (add_nonneg laws acc _ h (
          mul_nonneg laws (N.of_ℤ p.quantity) _ (laws.of_ℤ_mono (pos 0) p.quantity (omega arith))
            (price_nonneg prices p a (le_of_lt laws (of_ℕ 0) p.avg_price cost))))
        a k

  pub portfolio_value_nonneg :
      (b : VirtualBroker F) (prices : List (String × F))
      → IsSolvent b
      → All (λ (q : String × F). of_ℕ 0 ≼ q.1) prices
      → of_ℕ 0 ≼ portfolio_value b prices
  unfolding portfolio_value
  portfolio_value_nonneg b prices s a =
      add_nonneg laws b.cash _ s.no_debt
        (stock_value_nonneg b.positions (of_ℕ 0) prices (laws.le_refl (of_ℕ 0)) a s.held)

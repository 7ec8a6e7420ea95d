-- ===== src/Trading/Orders/Confirmed.antt =====
-- `_confirm_fill`: which change of the holding it takes for a fill.
use kis_autotrader.Common.{
  ℕ, zero, suc, ◌<◌, ◌≡◌, refl, ap, sym, subst, true, false, Option, none, some, arith, inl, inr,
  ◌⊎◌, Bool-cases, Option-cases,
}
use kis_autotrader.Common.Int.{ℤ, pos, ltb_ℤ, -ℤ_parts}
use kis_autotrader.Python.{or_default}
use kis_autotrader.Trading.{Side}
use kis_autotrader.Trading.Orders.{filled_of, confirm_fill}

-- The change that a poll shows; a poll that raises shows none.
abbrev pub seen : Side → ℤ → Option ℤ → ℤ
seen side before poll = filled_of side before (or_default poll before)

-- What a confirmation with `n` polls returns: 0 when no poll shows a fill, or else a fill that a
-- poll showed.
abbrev pub IsConfirmed : Side → ℤ → (ℕ → Option ℤ) → ℕ → ℤ → Type 0
IsConfirmed side before poll n filled =
    ((filled ≡ pos 0) × ((k : ℕ) → k < n → ltb_ℤ (pos 0) (seen side before (poll k)) ≡ false))
    ⊎ ((k : ℕ) × (held : ℤ) × (k < n)
        × (poll k ≡ some held)
        × (filled ≡ filled_of side before held)
        × (ltb_ℤ (pos 0) filled ≡ true))

seen-none : (side : Side) (before : ℤ) → ltb_ℤ (pos 0) (seen side before none) ≡ false
seen-none Side.buys before = ground (arith, -ℤ_parts before before)
seen-none Side.sells before = ground (arith, -ℤ_parts before before)

-- A poll that shows no fill leaves the result to the others.
pass_over :
    (side : Side) (before : ℤ) (poll : ℕ → Option ℤ) (n : ℕ) (later : ℤ)
    → ltb_ℤ (pos 0) (seen side before (poll n)) ≡ false
    → IsConfirmed side before poll n later
    → IsConfirmed side before poll (suc n) later
pass_over side before poll n later e (inl (z, unseen_before)) = inl (
  z,
  λ k h. elim (last k h) [
    | inl k_eq ↦ subst (λ i. ltb_ℤ (pos 0) (seen side before (poll i)) ≡ false) (sym k_eq) e
    | inr below ↦ unseen_before k below
  ],
)
  where
    last : (k : ℕ) → k < suc n → (k ≡ n) ⊎ (k < n)
    last k h = ground arith
pass_over side before poll n later e (inr (k, held, below, polled, is, big)) =
    inr (k, held, omega arith, polled, is, big)

-- A confirmation returns 0 where no poll shows a change of the holding in the right direction, and
-- else such a change, more than 0, that a poll shows.
pub confirm_fill-IsConfirmed :
    (side : Side) (before : ℤ) (poll : ℕ → Option ℤ) (n : ℕ)
    → IsConfirmed side before poll n (confirm_fill side before poll n)
unfolding confirm_fill
confirm_fill-IsConfirmed side before poll zero = inl (refl, λ k h. absurd (omega arith))
confirm_fill-IsConfirmed side before poll (suc n) =
    elim (Bool-cases (ltb_ℤ (pos 0) (seen side before (poll n)))) [
      | inl e ↦
          rw (confirm_fill, e)
            (elim (Option-cases (poll n)) [
              | inl o ↦ absurd (unseen o e)
              | inr (held, o) ↦ inr (n, held, omega arith, o, rw o refl, e)
            ])
      | inr e ↦
          rw (confirm_fill, e)
            (pass_over side before poll n (confirm_fill side before poll n) e
              (confirm_fill-IsConfirmed side before poll n))
    ]
  where
    unseen : poll n ≡ none → ltb_ℤ (pos 0) (seen side before (poll n)) ≡ true → ⊥
    unseen o e =
        ground (arith, ap (λ p. ltb_ℤ (pos 0) (seen side before p)) o, seen-none side before)

-- ===== src/Ensemble/Confidence.antt =====
-- A vote never raises: its verdict is a signal whose confidence is a number from 0 to 1.
use kis_autotrader.Common.{
  ℕ, zero, suc, ◌<◌, ◌≡◌, refl, Bool, true, false, List, [], ◌∷◌, length, keep, All, arith, inl,
  inr, Bool-cases, if◌then◌else◌,
}
use kis_autotrader.Float.{Float, IsRounded, of_ℕ, ◌⊕◌, ◌⊗◌, ◌⊘◌, ◌≼◌, ◌≺◌, min_f}
use kis_autotrader.Float.Laws.{
  not_le_of_lt, lt_of_lt-le, le_of_lt, of_ℕ_mono, of_ℕ_pos, eq_zero_of_pos, add_nonneg,
  le-add_right, mul_nonneg, div_nonneg, min_bounds,
}
use kis_autotrader.Python.{Result, ok, err, ◌>>=◌, divide}
use kis_autotrader.Strategy.{SignalType, hold, Signal, mk_signal}
use kis_autotrader.Ensemble.{votes, sum_from, weight, verdict, hold_signal, strength}

module _ {F : Type 0} ⦃N : Float F⦄ where
  -- The confidence lies between 0 and 1, as `Signal` demands.
  abbrev pub IsBounded : Signal F → Type 0
  IsBounded s = (of_ℕ 0 ≼ s.confidence) × (s.confidence ≼ of_ℕ 1)

  -- No exception, and a bounded signal.
  abbrev pub Yields : Result (Signal F) → Type 0
  Yields (ok s) = IsBounded s
  Yields (err e) = ⊥

  pub Yields-if :
      (b : Bool) (x y : Result (Signal F))
      → (b ≡ true → Yields x)
      → (b ≡ false → Yields y)
      → Yields (if b then x else y)
  Yields-if true x y h k = h refl
  Yields-if false x y h k = k refl

  pub Yields-ok :
      (r : Result (Signal F))
      → Yields r
      → (s : Signal F) × (r ≡ ok s) × (of_ℕ 0 ≼ s.confidence) × (s.confidence ≼ of_ℕ 1)
  Yields-ok (ok s) h = (s, refl, h.0, h.1)
  Yields-ok (err e) h = absurd h

  pub verdict-Yields : (t : SignalType) (c : F) → of_ℕ 0 ≼ c → c ≼ of_ℕ 1 → Yields (verdict t c)
  unfolding mk_signal
  verdict-Yields t c h k = rw (h, k) (h, k)

  pub >>=-Yields :
      (x : F) (r : Result F) (f : F → Result (Signal F))
      → r ≡ ok x
      → Yields (f x)
      → Yields (r >>= f)
  >>=-Yields x r f e h = rw e h

module _ {F : Type 0} ⦃N : Float F⦄ (laws : IsRounded F) where
  open laws use {le_refl, le_trans, add_mono}

  pub hold-Yields : Yields {F = F} hold_signal
  hold-Yields = verdict-Yields hold (of_ℕ 0) (le_refl (of_ℕ 0)) (of_ℕ_mono laws 0 1 (omega arith))

  pub sum_from-nonneg :
      (acc : F) (signals : List (Signal F))
      → of_ℕ 0 ≼ acc
      → All IsBounded signals
      → of_ℕ 0 ≼ sum_from acc signals
  sum_from-nonneg acc [] h a = h
  sum_from-nonneg acc (s ∷ signals) h (b, a) =
      sum_from-nonneg (acc ⊕ s.confidence) signals (add_nonneg laws acc s.confidence h b.0) a

  pub All-keep :
      (p : Signal F → Bool) (signals : List (Signal F))
      → All IsBounded signals
      → All IsBounded (keep p signals)
  All-keep p [] a = tt
  All-keep p (s ∷ signals) (b, a) = elim (Bool-cases (p s)) [
    | inl e ↦ rw e (b, All-keep p signals a)
    | inr e ↦ rw e (All-keep p signals a)
  ]

  pub weight-nonneg :
      (t : SignalType) (signals : List (Signal F))
      → All IsBounded signals
      → of_ℕ 0 ≼ weight (votes t signals)
  weight-nonneg t signals a =
      sum_from-nonneg (of_ℕ 0) (votes t signals) (le_refl (of_ℕ 0)) (All-keep _ signals a)

  -- A positive weight comes from some vote.
  pub length-pos : (signals : List (Signal F)) → of_ℕ 0 ≺ weight signals → 0 < length signals
  length-pos [] h = absurd (ground (arith, not_le_of_lt laws (of_ℕ 0) (of_ℕ 0) h, le_refl (of_ℕ 0)))
  length-pos (s ∷ signals) h = omega arith

  pub divide_ok : (x y : F) → of_ℕ 0 ≺ y → divide x y ≡ ok (x ⊘ y)
  divide_ok x y h = rw (eq_zero_of_pos laws y h)

  -- The strength of a winner with a vote is a number from 0 to 1.
  pub strength_bounds :
      (w l : F) (n : ℕ)
      → of_ℕ 0 ≺ w
      → of_ℕ 0 ≼ l
      → 0 < n
      → (c : F) × (strength w l n ≡ ok c) × (of_ℕ 0 ≼ c) × (c ≼ of_ℕ 1)
  strength_bounds w l zero hw hl h = absurd (omega arith)
  strength_bounds w l (suc n) hw hl h =
      let whole : of_ℕ 0 ≺ w ⊕ l =
        lt_of_lt-le laws (of_ℕ 0) w (w ⊕ l) hw (le-add_right laws w l hl) in
      let some_votes : ◌≺◌ {F = F} (of_ℕ 0) (of_ℕ (suc n)) = of_ℕ_pos laws n in
      let w0 : of_ℕ 0 ≼ w = le_of_lt laws (of_ℕ 0) w hw in
      let base = w ⊘ of_ℕ (suc n) in
      let opp = w ⊘ (w ⊕ l) in
      let product : of_ℕ 0 ≼ base ⊗ opp =
        mul_nonneg laws base opp (div_nonneg laws w (of_ℕ (suc n)) w0 some_votes)
          (div_nonneg laws w (w ⊕ l) w0 whole) in
      let (low, high) = min_bounds laws (base ⊗ opp) product in
      (
        min_f (base ⊗ opp) (of_ℕ 1),
        rw (eq_zero_of_pos laws (of_ℕ (suc n)) some_votes, eq_zero_of_pos laws (w ⊕ l) whole),
        low,
        high,
      )

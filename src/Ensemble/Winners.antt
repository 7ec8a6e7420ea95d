-- ===== src/Ensemble/Winners.antt =====
-- Who wins a vote.
use kis_autotrader.Common.{
  ◌*◌, ℕ, ◌≤◌, ◌≡◌, refl, Bool, true, false, not, ◌&&◌, ◌⊎◌, inl, inr, none, List, length, arith,
  ltb, if◌then◌else◌,
}
use kis_autotrader.Float.{Float, of_ℕ, ◌≼◌}
use kis_autotrader.Python.{Result, ok, err, ◌>>=◌}
use kis_autotrader.Strategy.{SignalType, buy, sell, hold, Signal, mk_signal}
use kis_autotrader.Ensemble.{
  Ensemble, is_type, votes, weight, trend_backs, verdict, hold_signal, strength, solo_verdict,
  decide, weighted_vote,
}

module _ {F : Type 0} ⦃N : Float F⦄ where
  -- What holds of the signal that a vote returns, if it returns one.
  abbrev Ensures : (Signal F → Type 0) → Result (Signal F) → Type 0
  Ensures P (ok s) = P s
  Ensures P (err e) = Unit

  Ensures-if :
      (P : Signal F → Type 0) (b : Bool) (x y : Result (Signal F))
      → (b ≡ true → Ensures P x)
      → (b ≡ false → Ensures P y)
      → Ensures P (if b then x else y)
  Ensures-if P true x y h k = h refl
  Ensures-if P false x y h k = k refl

  Ensures-bind :
      (P : Signal F → Type 0) (r : Result F) (f : F → Result (Signal F))
      → ((c : F) → Ensures P (f c))
      → Ensures P (r >>= f)
  Ensures-bind P (ok c) f h = h c
  Ensures-bind P (err e) f h = tt

  Ensures-ok :
      (P : Signal F → Type 0) (r : Result (Signal F)) (s : Signal F) → Ensures P r → r ≡ ok s → P s
  Ensures-ok P r s h e = rw e at h

  Ensures-verdict :
      (P : Signal F → Type 0) (t : SignalType) (c : F)
      → P (record { signal_type = t; confidence = c; target_price = none; stop_loss_price = none })
      → Ensures P (verdict t c)
  unfolding mk_signal
  Ensures-verdict P t c h = Ensures-if P (N.le (of_ℕ 0) c && N.le c (of_ℕ 1)) _ _ (λ _. h) (λ _. tt)

  -- A signal of the winner's type has two votes, or is a single BUY that the trend guard lets pass
  -- and whose confidence reaches the threshold.
  abbrev pub IsAgreed : F → Bool → SignalType → ℕ → Signal F → Type 0
  IsAgreed solo_min suppressed winner n s =
      (s.signal_type ≡ hold)
      ⊎ ((s.signal_type ≡ winner)
          × ((2 ≤ n) ⊎ ((winner ≡ buy) × (suppressed ≡ false) × (solo_min ≼ s.confidence))))

  hold-IsAgreed :
      (solo_min : F) (suppressed : Bool) (winner : SignalType) (n : ℕ)
      → Ensures (IsAgreed solo_min suppressed winner n) hold_signal
  hold-IsAgreed solo_min suppressed winner n = Ensures-verdict _ hold (of_ℕ 0) (inl refl)

  decide-IsAgreed :
      (solo_min w l : F) (suppressed : Bool) (winner : SignalType) (n : ℕ)
      → Ensures (IsAgreed solo_min suppressed winner n) (decide solo_min suppressed winner w l n)
  decide-IsAgreed solo_min w l suppressed winner n =
      let P = IsAgreed solo_min suppressed winner n in
      let idle = hold-IsAgreed solo_min suppressed winner n in
      Ensures-if P (suppressed && is_type buy winner && ltb n 2) _ _ (λ _. idle)
        (λ passed.
          Ensures-if P (ltb n 2) _ _
            (λ single.
              Ensures-if P (is_type buy winner) _ _
                (λ buys. Ensures-bind P (strength w l n) (solo_verdict solo_min) (λ c.
                  Ensures-if P (N.le solo_min c) _ _
                    (λ enough.
                      Ensures-verdict P buy c
                        (inr (ground arith, inr (ground arith, ground arith, enough))))
                    (λ _. idle)))
                (λ _. idle))
            (λ several.
              Ensures-bind P (strength w l n) (verdict winner)
                (λ c. Ensures-verdict P winner c (inr (refl, inl (ground arith))))))

  -- The winner is a BUY or a SELL, and agreed on.
  abbrev IsDecided : F → Bool → List (Signal F) → Signal F → Type 0
  IsDecided solo_min suppressed signals s =
      IsAgreed solo_min suppressed buy (length (votes buy signals)) s
      ⊎ IsAgreed solo_min suppressed sell (length (votes sell signals)) s

  Ensures-weaken :
      (P Q : Signal F → Type 0) (r : Result (Signal F))
      → ((s : Signal F) → P s → Q s)
      → Ensures P r
      → Ensures Q r
  Ensures-weaken P Q (ok s) f h = f s h
  Ensures-weaken P Q (err e) f h = tt

  weighted_vote-IsDecided :
      {D : Type 0} (e : Ensemble F D) (signals : List (Signal F))
      → Ensures
          (IsDecided e.solo_buy_min_confidence
            (e.trend_filter_enabled && not (trend_backs e.strategies signals))
            signals)
          (weighted_vote e signals)
  unfolding weighted_vote
  weighted_vote-IsDecided e signals =
      let suppressed = e.trend_filter_enabled && not (trend_backs e.strategies signals) in
      let solo = e.solo_buy_min_confidence in
      let P = IsDecided solo suppressed signals in
      let buys = votes buy signals in
      let sells = votes sell signals in
      let idle =
        Ensures-weaken _ P hold_signal (λ _ h. inl h)
          (hold-IsAgreed solo suppressed buy (length buys)) in
      Ensures-if P (ltb (length signals * 3) (length (votes hold signals) * 4)) _ _ (λ _. idle)
        (λ _.
          Ensures-if P (N.eq (weight buys) (of_ℕ 0) && N.eq (weight sells) (of_ℕ 0)) _ _ (λ _. idle)
            (λ _.
              Ensures-if P (N.eq (weight buys) (weight sells)) _ _ (λ _. idle)
                (λ _.
                  Ensures-if P (N.lt (weight sells) (weight buys)) _ _
                    (λ _.
                      Ensures-weaken _ P _ (λ _ h. inl h)
                        (decide-IsAgreed solo (weight buys) (weight sells) suppressed buy
                          (length buys)))
                    (λ _.
                      Ensures-weaken _ P _ (λ _ h. inr h)
                        (decide-IsAgreed solo (weight sells) (weight buys) suppressed sell
                          (length sells))))))

  -- Where the weighted vote returns a BUY, two strategies voted BUY, or the confidence returned
  -- reaches the threshold for single votes and, if the trend filter is on, a trend-following
  -- strategy voted BUY.
  pub weighted_vote-buy :
      {D : Type 0} (e : Ensemble F D) (signals : List (Signal F)) (s : Signal F)
      → weighted_vote e signals ≡ ok s
      → s.signal_type ≡ buy
      → (2 ≤ length (votes buy signals))
        ⊎ ((e.solo_buy_min_confidence ≼ s.confidence)
            × ((e.trend_filter_enabled ≡ false) ⊎ (trend_backs e.strategies signals ≡ true)))
  weighted_vote-buy e signals s h t =
      let decided =
        Ensures-ok _ (weighted_vote e signals) s (weighted_vote-IsDecided e signals) h in
      ground arith

  -- Where the weighted vote returns a SELL, two strategies voted SELL.
  pub weighted_vote-sell :
      {D : Type 0} (e : Ensemble F D) (signals : List (Signal F)) (s : Signal F)
      → weighted_vote e signals ≡ ok s
      → s.signal_type ≡ sell
      → 2 ≤ length (votes sell signals)
  weighted_vote-sell e signals s h t =
      let decided =
        Ensures-ok _ (weighted_vote e signals) s (weighted_vote-IsDecided e signals) h in
      ground arith

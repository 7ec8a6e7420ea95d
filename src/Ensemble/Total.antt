-- ===== src/Ensemble/Total.antt =====
-- The three votes on signals that satisfy `Signal`'s own check.
use native.Mathlib.Nat.{add-zero, zero-add}
use kis_autotrader.Common.{
  ◌*◌, ℕ, suc, ◌+◌, ◌≤◌, ◌<◌, ◌^◌, ◌≡◌, subst, Bool, false, not, ◌&&◌, List, [], ◌∷◌, length, keep,
  All, arith, ltb, ◌==◌,
}
use kis_autotrader.Float.{Float, IsRounded, of_ℕ, ◌⊕◌, ◌⊘◌, ◌≼◌, ◌≺◌}
use kis_autotrader.Float.Laws.{lt_of_le-lt, of_ℕ_pos, div_nonneg, div-le_one}
use kis_autotrader.Python.{ok, ◌>>=◌, divide}
use kis_autotrader.Strategy.{SignalType, buy, sell, hold, Signal}
use kis_autotrader.Ensemble.{
  Ensemble, is_type, votes, sum_from, weight, verdict, strength, solo_verdict, decide,
  majority_vote, weighted_vote,
}
use kis_autotrader.Ensemble.Confidence.{
  IsBounded, Yields, Yields-if, Yields-ok, verdict-Yields, >>=-Yields, hold-Yields, sum_from-nonneg,
  All-keep, weight-nonneg, length-pos, divide_ok, strength_bounds,
}

module _ {F : Type 0} ⦃N : Float F⦄ (laws : IsRounded F) where
  open laws use {le_refl, le_trans, lt-eq-not_le, eq-le, add_mono, add_one}

  decide-Yields :
      (solo_min w l : F) (suppressed : Bool) (winner : SignalType) (n : ℕ)
      → of_ℕ 0 ≺ w
      → of_ℕ 0 ≼ l
      → 0 < n
      → Yields (decide solo_min suppressed winner w l n)
  decide-Yields solo_min w l suppressed winner n hw hl h =
      let (c, e, low, high) = strength_bounds laws w l n hw hl h in
      let idle = hold-Yields laws in
      let solo : Yields (solo_verdict solo_min c) =
        Yields-if (N.le solo_min c) _ _ (λ _. verdict-Yields buy c low high) (λ _. idle) in
      Yields-if (suppressed && is_type buy winner && ltb n 2) _ _ (λ _. idle)
        (λ _.
          Yields-if (ltb n 2) _ _
            (λ _.
              Yields-if (is_type buy winner) _ _
                (λ _. >>=-Yields c (strength w l n) (solo_verdict solo_min) e solo) (λ _. idle))
            (λ _.
              >>=-Yields c (strength w l n) (verdict winner) e (verdict-Yields winner c low high)))

  -- Of two weights that are not equal one is larger.
  larger : (a b : F) → N.eq b a ≡ false → N.lt a b ≡ false → b ≺ a
  larger a b e l = ground (arith, eq-le b a, lt-eq-not_le a b, lt-eq-not_le b a)

  weighted_vote-Yields :
      {D : Type 0} (e : Ensemble F D) (signals : List (Signal F))
      → All IsBounded signals
      → Yields (weighted_vote e signals)
  unfolding weighted_vote
  weighted_vote-Yields e signals a =
      let buys = votes buy signals in
      let sells = votes sell signals in
      let b0 = weight-nonneg laws buy signals a in
      let s0 = weight-nonneg laws sell signals a in
      let idle = hold-Yields laws in
      Yields-if (ltb (length signals * 3) (length (votes hold signals) * 4)) _ _ (λ _. idle)
        (λ _.
          Yields-if (N.eq (weight buys) (of_ℕ 0) && N.eq (weight sells) (of_ℕ 0)) _ _ (λ _. idle)
            (λ _.
              Yields-if (N.eq (weight buys) (weight sells)) _ _ (λ _. idle)
                (λ differ.
                  Yields-if (N.lt (weight sells) (weight buys)) _ _
                    (λ more.
                      let w = lt_of_le-lt laws (of_ℕ 0) (weight sells) (weight buys) s0 more in
                      decide-Yields e.solo_buy_min_confidence (weight buys) (weight sells) _ buy
                        (length buys) w s0 (length-pos laws buys w))
                    (λ less.
                      let more = larger (weight sells) (weight buys) differ less in
                      let w = lt_of_le-lt laws (of_ℕ 0) (weight buys) (weight sells) b0 more in
                      decide-Yields e.solo_buy_min_confidence (weight sells) (weight buys) _ sell
                        (length sells) w b0 (length-pos laws sells w)))))

  -- On signals that are valid the weighted vote never raises, and its confidence is from 0 to 1.
  pub weighted_vote_bounds :
      {D : Type 0} (e : Ensemble F D) (signals : List (Signal F))
      → All IsBounded signals
      → (s : Signal F) × (weighted_vote e signals ≡ ok s)
        × (of_ℕ 0 ≼ s.confidence)
        × (s.confidence ≼ of_ℕ 1)
  weighted_vote_bounds e signals a =
      Yields-ok (weighted_vote e signals) (weighted_vote-Yields e signals a)

  -- A sum of confidences is at most their number, which is exact on the floats.
  sum_from-le :
      (acc : F) (k : ℕ) (signals : List (Signal F))
      → acc ≼ of_ℕ k
      → k + length signals < 2 ^ 53
      → All IsBounded signals
      → sum_from acc signals ≼ of_ℕ (k + length signals)
  sum_from-le acc k [] h small a = rw add-zero h
  sum_from-le acc k (s ∷ signals) h small (b, a) =
      let next : acc ⊕ s.confidence ≼ of_ℕ (suc k) =
        le_trans (acc ⊕ s.confidence) (of_ℕ k ⊕ of_ℕ 1) (of_ℕ (suc k))
          (add_mono acc (of_ℕ k) s.confidence (of_ℕ 1) h b.1) (add_one k (omega arith)) in
      let shift : suc k + length signals ≡ k + suc (length signals) = omega arith in
      subst (λ n. sum_from (acc ⊕ s.confidence) signals ≼ of_ℕ n) shift
        (sum_from-le (acc ⊕ s.confidence) (suc k) signals next (omega arith) a)

  mean-Yields :
      (t : SignalType) (signals : List (Signal F))
      → 0 < length signals
      → length signals < 2 ^ 53
      → All IsBounded signals
      → Yields (divide (weight signals) (of_ℕ (length signals)) >>= verdict t)
  mean-Yields t [] h small a = absurd (omega arith)
  mean-Yields t (s ∷ signals) h small a =
      let all = s ∷ signals in
      let n : ◌≺◌ {F = F} (of_ℕ 0) (of_ℕ (length all)) = of_ℕ_pos laws (length signals) in
      let total = sum_from-nonneg laws (of_ℕ 0) all (le_refl (of_ℕ 0)) a in
      >>=-Yields (weight all ⊘ of_ℕ (length all)) _ (verdict t) (divide_ok laws _ _ n) (
        verdict-Yields t _ (div_nonneg laws (weight all) (of_ℕ (length all)) total n) (
          div-le_one laws (weight all) (of_ℕ (length all)) n
            (rw zero-add at (sum_from-le (of_ℕ 0) 0 all (le_refl (of_ℕ 0)) (omega arith) a))))

  length-keep-le :
      (p : Signal F → Bool) (signals : List (Signal F)) → length (keep p signals) ≤ length signals
  length-keep-le p [] = omega arith
  length-keep-le p (s ∷ signals) = ground (arith, length-keep-le p signals)

  majority_vote-Yields :
      (signals : List (Signal F))
      → length signals < 2 ^ 53
      → All IsBounded signals
      → Yields (majority_vote signals)
  unfolding majority_vote
  majority_vote-Yields signals small a =
      let active = keep (λ (s : Signal F). not (is_type hold s.signal_type)) signals in
      let fewer : length active ≤ length signals = length-keep-le _ signals in
      let b = All-keep laws _ signals a in
      let idle = hold-Yields laws in
      Yields-if (length active == 0) _ _ (λ _. idle)
        (λ _.
          Yields-if (length (votes buy active) == length (votes sell active)) _ _ (λ _. idle)
            (λ differ.
              Yields-if (ltb (length (votes sell active)) (length (votes buy active))) _ _
                (λ more.
                  mean-Yields buy (votes buy active) (ground arith)
                    (omega (arith, length-keep-le (λ s. is_type buy s.signal_type) active))
                    (All-keep laws _ active b))
                (λ less.
                  mean-Yields sell (votes sell active) (ground arith)
                    (omega (arith, length-keep-le (λ s. is_type sell s.signal_type) active))
                    (All-keep laws _ active b))))

  -- On valid signals, fewer than 2 ^ 53, the majority vote never raises, and its confidence is from
  -- 0 to 1.
  pub majority_vote_bounds :
      (signals : List (Signal F))
      → length signals < 2 ^ 53
      → All IsBounded signals
      → (s : Signal F) × (majority_vote signals ≡ ok s)
        × (of_ℕ 0 ≼ s.confidence)
        × (s.confidence ≼ of_ℕ 1)
  majority_vote_bounds signals small a =
      Yields-ok (majority_vote signals) (majority_vote-Yields signals small a)

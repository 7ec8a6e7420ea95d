-- ===== src/Client/Breaker/Trips.antt =====
-- How a run of failures opens the breaker.
use kis_autotrader.Common.{
  suc, ◌+◌, ◌-◌, ◌<◌, ◌≡◌, refl, ◌∙◌, leb, List, [], ◌∷◌, length, arith, inl, inr, Bool-cases,
}
use kis_autotrader.Float.{Float}
use kis_autotrader.Client.Breaker.{CircuitBreaker, record_failure}

module _ {F : Type 0} ⦃N : Float F⦄ where
  -- Failures at these times, with no success and no call between them.
  abbrev pub record_failures : List F → CircuitBreaker F → CircuitBreaker F
  record_failures [] b = b
  record_failures (now ∷ times) b = record_failures times (record_failure now b)

  -- A failure adds to the count, and one from the threshold on to the trips.
  record_failure_lem :
      (now : F) (b : CircuitBreaker F)
      → let b' = record_failure now b in
        (b'.failure_threshold ≡ b.failure_threshold)
        × (b'.failure_count ≡ suc b.failure_count)
        × (b'.trip_count
            ≡ b.trip_count
              + ((suc b.failure_count + 1 - b.failure_threshold)
                  - (b.failure_count + 1 - b.failure_threshold)))
        × (b'.base_reset_timeout ≡ b.base_reset_timeout)
  unfolding record_failure
  record_failure_lem now b = elim (Bool-cases (leb b.failure_threshold (suc b.failure_count))) [
    | inl e ↦ rw (record_failure, e) (refl, refl, ground arith, refl)
    | inr e ↦ rw (record_failure, e) (refl, refl, ground arith, refl)
  ]

  record_failures_lem :
      (times : List F) (b : CircuitBreaker F)
      → let b' = record_failures times b in
        (b'.failure_count ≡ b.failure_count + length times)
        × (b'.trip_count
            ≡ b.trip_count
              + ((b.failure_count + length times + 1 - b.failure_threshold)
                  - (b.failure_count + 1 - b.failure_threshold)))
  record_failures_lem [] b = (omega arith, omega arith)
  record_failures_lem (now ∷ times) b =
      let (thr, c, t, base) = record_failure_lem now b in
      let (c', t') = record_failures_lem times (record_failure now b) in
      (ground (arith, c, c'), t' ∙ rw (thr, c, t) (omega arith))

  -- From a count below the threshold, failures with nothing between them are counted, and each one
  -- from the threshold on is a trip of its own.
  pub record_failures-trip_count :
      (times : List F) (b : CircuitBreaker F)
      → b.failure_count < b.failure_threshold
      → let b' = record_failures times b in
        (b'.failure_count ≡ b.failure_count + length times)
        × (b'.trip_count
            ≡ b.trip_count + (b.failure_count + length times + 1 - b.failure_threshold))
  record_failures-trip_count times b h =
      let (c, t) = record_failures_lem times b in (c, t ∙ omega arith)

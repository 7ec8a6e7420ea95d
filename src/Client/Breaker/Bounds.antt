-- ===== src/Client/Breaker/Bounds.antt =====
-- How long the breaker holds requests back.
use kis_autotrader.Common.{
  suc, ◌-◌, ◌^◌, ◌≤◌, ◌<◌, ◌≡◌, refl, Bool, true, false, not, leb, arith, inl, inr, Bool-cases,
  if◌then◌else◌,
}
use kis_autotrader.Float.{Float, IsRounded, of_ℕ, ◌⊖◌, ◌⊗◌, ◌≼◌, min_f}
use kis_autotrader.Float.Laws.{le_of_not_lt}
use kis_autotrader.Client.Breaker.{
  CircuitBreaker, max_reset_timeout, record_success, record_failure, try_half_open, is_available,
}

module _ {F : Type 0} ⦃N : Float F⦄ where
  -- The breaker is open exactly from the threshold of failures on, and waits 300 seconds at most.
  pub record IsBounded (b : CircuitBreaker F) : Type 0 where
    pub threshold : 0 < b.failure_threshold
    pub base : b.base_reset_timeout ≼ max_reset_timeout
    pub waits : b.current_reset_timeout ≼ max_reset_timeout
    pub closed : b.is_open_flag ≡ false → b.failure_count < b.failure_threshold
    pub opened : b.is_open_flag ≡ true → b.failure_threshold ≤ b.failure_count

  pub record_success-IsBounded : (b : CircuitBreaker F) → IsBounded b → IsBounded (record_success b)
  unfolding record_success
  record_success-IsBounded b h = record {
    threshold = h.threshold;
    base = h.base;
    waits = h.base;
    closed = λ e. h.threshold;
    opened = λ e. absurd (ground arith);
  }

  pub is_available-IsBounded :
      (now : F) (b : CircuitBreaker F) → IsBounded b → IsBounded (is_available now b).1
  unfolding is_available try_half_open
  is_available-IsBounded now b h = one_of (not b.is_open_flag) _ _ h (
      one_of (not b.is_open_flag) _ _ h
        (one_of (N.le b.current_reset_timeout (now ⊖ b.last_failure_time)) _ _ half_open h))
    where
      one_of :
          (c : Bool) (x y : Bool × CircuitBreaker F)
          → IsBounded x.1
          → IsBounded y.1
          → IsBounded (if c then x else y).1
      one_of true x y p q = p
      one_of false x y p q = q

      half_open : IsBounded (record b { failure_count = 0; is_open_flag = false })
      half_open = record {
        threshold = h.threshold;
        base = h.base;
        waits = h.waits;
        closed = λ e. h.threshold;
        opened = λ e. absurd (ground arith);
      }

  module _ (laws : IsRounded F) where
    min_le : (x y : F) → min_f x y ≼ y
    min_le x y = elim (Bool-cases (N.lt y x)) [
      | inl e ↦ rw e (laws.le_refl y)
      | inr e ↦ rw e (le_of_not_lt laws x y e)
    ]

    pub record_failure-IsBounded :
        (now : F) (b : CircuitBreaker F) → IsBounded b → IsBounded (record_failure now b)
    unfolding record_failure
    record_failure-IsBounded now b h =
        elim (Bool-cases (leb b.failure_threshold (suc b.failure_count))) [
          | inl e ↦
              rw (record_failure, e)
                record {
                  threshold = h.threshold;
                  base = h.base;
                  waits =
                      min_le (b.base_reset_timeout ⊗ of_ℕ (2 ^ (suc b.trip_count - 1)))
                        max_reset_timeout;
                  closed = λ f. absurd (ground arith);
                  opened = λ f. ground arith;
                }
          | inr e ↦
              rw (record_failure, e)
                record {
                  threshold = h.threshold;
                  base = h.base;
                  waits = h.waits;
                  closed = λ f. ground arith;
                  opened = λ f. ground (arith, h.opened f);
                }
        ]

    -- The wait is over 300 seconds after the last failure: a request is let through, and an open
    -- breaker closes.
    pub is_available-max_reset_timeout :
        (now : F) (b : CircuitBreaker F)
        → IsBounded b
        → max_reset_timeout ≼ now ⊖ b.last_failure_time
        → ((is_available now b).0 ≡ true) × ((is_available now b).1.is_open_flag ≡ false)
    unfolding is_available try_half_open
    is_available-max_reset_timeout now b h late = elim (Bool-cases b.is_open_flag) [
      | inl e ↦ rw (is_available, try_half_open, e, over) (refl, refl)
      | inr e ↦ rw (is_available, e) (refl, refl)
    ]
      where
        over : b.current_reset_timeout ≼ now ⊖ b.last_failure_time
        over =
            laws.le_trans b.current_reset_timeout max_reset_timeout (now ⊖ b.last_failure_time)
              h.waits late

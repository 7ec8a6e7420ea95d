-- ===== src/Client/Request/Kept.antt =====
-- Any sequence of calls keeps the breaker within its bounds.
use kis_autotrader.Common.{
  ℕ, zero, suc, ◌<◌, ◌≡◌, refl, Bool, true, false, not, leb, ◌==◌, Option, none, some, List, [],
  ◌∷◌, arith, if◌then◌else◌,
}
use kis_autotrader.Float.{Float, IsRounded, ◌⊖◌, ◌≼◌}
use kis_autotrader.Python.{Error, Result, ok, err}
use kis_autotrader.Client.Breaker.{
  CircuitBreaker, max_reset_timeout, new_breaker, is_available, record_failure,
}
use kis_autotrader.Client.Breaker.Bounds.{
  IsBounded, record_success-IsBounded, record_failure-IsBounded, is_available-IsBounded,
  is_available-max_reset_timeout,
}
use kis_autotrader.Client.Request.{Attempt, Ending, max_retries, throttle, attempts, request}

-- A call of the client, with all that it is answered.
pub record Call (F A : Type 0) : Type 0 where
  pub idempotent : Bool
  pub now : ℕ → F
  pub attempt : ℕ → Attempt F A
  pub start : F
  pub prepare : Option Error

module _ {F A : Type 0} ⦃N : Float F⦄ where
  -- The breaker behind a sequence of calls.
  abbrev pub after_calls : List (Call F A) → CircuitBreaker F → CircuitBreaker F
  after_calls [] b = b
  after_calls (c ∷ cs) b =
      after_calls cs (request c.idempotent c.now c.attempt c.start c.prepare b).breaker

  if_IsBounded :
      (c : Bool) (x y : Ending F A)
      → IsBounded x.breaker
      → IsBounded y.breaker
      → IsBounded (if c then x else y).breaker
  if_IsBounded true x y p q = p
  if_IsBounded false x y p q = q

  throttle-IsBounded :
      (status : Option ℕ) (r : Result F) (b : CircuitBreaker F) (e : Ending F A)
      → IsBounded b
      → IsBounded e.breaker
      → IsBounded (throttle status r b e).breaker
  throttle-IsBounded status (ok delay) b e p q = q
  throttle-IsBounded status (err x) b e p q = p

  module _ (laws : IsRounded F) where
    module _ (idempotent : Bool) (now : ℕ → F) (attempt : ℕ → Attempt F A) where
      attempts-IsBounded :
          (n : ℕ) (b : CircuitBreaker F)
          → IsBounded b
          → IsBounded (attempts idempotent now attempt n b).breaker
      unfolding attempts
      attempts-IsBounded zero b h = h
      attempts-IsBounded (suc n) b h =
          answered (attempts-IsBounded n b h) failed
            (attempts-IsBounded n (record_failure (now n) b) failed) (attempt n) refl
        where
          failed : IsBounded (record_failure (now n) b)
          failed = record_failure-IsBounded laws (now n) b h

          answered :
              IsBounded (attempts idempotent now attempt n b).breaker
              → IsBounded (record_failure (now n) b)
              → IsBounded (attempts idempotent now attempt n (record_failure (now n) b)).breaker
              → (a : Attempt F A) → attempt n ≡ a
              → IsBounded (attempts idempotent now attempt (suc n) b).breaker
          answered rest f rest_failed (Attempt.limited e) x = rw (attempts, x) h
          answered rest f rest_failed Attempt.unreachable x =
              rw (attempts, x) (if_IsBounded (not idempotent) _ _ f rest_failed)
          answered rest f rest_failed (Attempt.responded r) x =
              rw (attempts, x)
                (if_IsBounded (r.status == 429) _ _
                  (throttle-IsBounded (some r.status) r.retry_after b _ h rest)
                  (if_IsBounded (leb 500 r.status) _ _
                    (if_IsBounded (not idempotent) _ _ f rest_failed)
                    (if_IsBounded (leb 400 r.status) _ _ f (record_success-IsBounded b h))))

      request-IsBounded :
          (start : F) (prepare : Option Error) (b : CircuitBreaker F)
          → IsBounded b
          → IsBounded (request idempotent now attempt start prepare b).breaker
      unfolding request
      request-IsBounded start none b h =
          if_IsBounded (not (is_available start b).0) _ _ (is_available-IsBounded start b h) (
            attempts-IsBounded max_retries (is_available start b).1
              (is_available-IsBounded start b h))
      request-IsBounded start (some e) b h =
          if_IsBounded (not (is_available start b).0) _ _ (is_available-IsBounded start b h)
            (is_available-IsBounded start b h)

    after_calls-IsBounded :
        (cs : List (Call F A)) (b : CircuitBreaker F) → IsBounded b → IsBounded (after_calls cs b)
    after_calls-IsBounded [] b h = h
    after_calls-IsBounded (c ∷ cs) b h =
        after_calls-IsBounded cs _
          (request-IsBounded c.idempotent c.now c.attempt c.start c.prepare b h)

    -- Whatever calls were made with a new breaker of a positive threshold and a base of 300 seconds at
    -- most: 300 seconds after the last failure a request is let through, and the breaker is closed.
    pub after_calls-is_available :
        (failure_threshold : ℕ) (reset_timeout now : F) (cs : List (Call F A))
        → 0 < failure_threshold
        → reset_timeout ≼ max_reset_timeout
        → let b = after_calls cs (new_breaker failure_threshold reset_timeout) in
          max_reset_timeout ≼ now ⊖ b.last_failure_time
          → ((is_available now b).0 ≡ true) × ((is_available now b).1.is_open_flag ≡ false)
    after_calls-is_available failure_threshold reset_timeout now cs pos_threshold short late =
        is_available-max_reset_timeout laws now _
          (after_calls-IsBounded cs (new_breaker failure_threshold reset_timeout) record {
            threshold = pos_threshold;
            base = short;
            waits = short;
            closed = λ e. pos_threshold;
            opened = λ e. absurd (ground arith);
          })
          late

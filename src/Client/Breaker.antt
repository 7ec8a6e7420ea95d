-- ===== src/Client/Breaker.antt =====
-- src/api/client.py, class CircuitBreaker. The readings of the monotonic clock are arguments; log
-- lines are left out.
pub mod Bounds
pub mod Trips
use kis_autotrader.Common.{ℕ, suc, ◌+◌, ◌-◌, ◌^◌, Bool, true, false, not, leb, if◌then◌else◌}
use kis_autotrader.Float.{Float, of_ℕ, ◌⊖◌, ◌⊗◌, min_f}

pub record CircuitBreaker (F : Type 0) : Type 0 where
  pub failure_threshold : ℕ
  pub base_reset_timeout : F
  pub current_reset_timeout : F
  pub failure_count : ℕ
  pub last_failure_time : F
  pub is_open_flag : Bool
  pub trip_count : ℕ

module _ {F : Type 0} ⦃N : Float F⦄ where
  -- `MAX_RESET_TIMEOUT`
  abbrev pub max_reset_timeout : F
  max_reset_timeout = of_ℕ 300

  -- `CircuitBreaker.__init__`
  abbrev pub new_breaker : ℕ → F → CircuitBreaker F
  new_breaker failure_threshold reset_timeout = record {
    failure_threshold = failure_threshold;
    base_reset_timeout = reset_timeout;
    current_reset_timeout = reset_timeout;
    failure_count = 0;
    last_failure_time = of_ℕ 0;
    is_open_flag = false;
    trip_count = 0;
  }

  unfoldable pub record_success : CircuitBreaker F → CircuitBreaker F
  record_success b = record b {
    failure_count = 0;
    is_open_flag = false;
    trip_count = 0;
    current_reset_timeout = b.base_reset_timeout;
  }

  -- `min(base * 2 ** (trips - 1), MAX_RESET_TIMEOUT)`
  abbrev pub backoff : F → ℕ → F
  backoff base trips = min_f (base ⊗ of_ℕ (2 ^ (trips - 1))) max_reset_timeout

  abbrev pub trip : CircuitBreaker F → CircuitBreaker F
  trip b = record b {
    is_open_flag = true;
    trip_count = suc b.trip_count;
    current_reset_timeout = backoff b.base_reset_timeout (suc b.trip_count);
  }

  abbrev pub count_failure : F → CircuitBreaker F → CircuitBreaker F
  count_failure now b = record b { failure_count = suc b.failure_count; last_failure_time = now }

  unfoldable pub record_failure : F → CircuitBreaker F → CircuitBreaker F
  record_failure now b =
      let counted = count_failure now b in
      if leb b.failure_threshold (suc b.failure_count) then trip counted else counted

  -- `_try_half_open`
  unfoldable pub try_half_open : F → CircuitBreaker F → Bool × CircuitBreaker F
  try_half_open now b =
      if not b.is_open_flag
      then (false, b)
      else if N.le b.current_reset_timeout (now ⊖ b.last_failure_time)
      then (true, record b { failure_count = 0; is_open_flag = false })
      else (false, b)

  unfoldable pub is_available : F → CircuitBreaker F → Bool × CircuitBreaker F
  is_available now b = if not b.is_open_flag then (true, b) else try_half_open now b

  -- The property `is_open`
  unfoldable pub is_open : F → CircuitBreaker F → Bool × CircuitBreaker F
  is_open now b =
      let b' = if b.is_open_flag then (try_half_open now b).1 else b in (b'.is_open_flag, b')

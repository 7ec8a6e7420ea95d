-- ===== src/RateLimiter.antt =====
-- src/api/rate_limiter.py: TokenBucket and RateLimiter. The clock's readings and the date are
-- arguments; the log lines are left out.
pub mod Bucket
pub mod Calls
pub mod Redis
pub mod Hybrid
use Prim.Native.String.{String}
use text.Mathlib.Text.{◌==◌ as str_eq}
use kis_autotrader.Common.{
  ℕ, suc, Bool, true, false, not, Option, none, some, List, [], ◌∷◌, leb, if◌then◌else◌,
}
use kis_autotrader.Common.Int.{ℤ}
use kis_autotrader.Float.{Float, of_ℕ, ◌⊕◌, ◌⊖◌, ◌⊗◌, ◌⊘◌, min_f}
use kis_autotrader.Python.{Result, ok, err, daily_limit_exceeded, or_default, ◌>>=◌}

pub record TokenBucket (F : Type 0) : Type 0 where
  pub rate : ℤ
  pub capacity : ℤ
  pub tokens : F
  pub last_refill : F

pub record RateLimiter (F : Type 0) : Type 0 where
  pub daily_limit : ℕ
  pub min_call_interval : F
  pub bucket : TokenBucket F
  pub daily_count : ℕ
  pub daily_reset_date : String
  pub last_call_time : F

module _ {F : Type 0} ⦃N : Float F⦄ where
  unfoldable pub new_bucket : ℤ → Option ℤ → F → TokenBucket F
  new_bucket rate capacity now = record {
    rate = rate;
    capacity = or_default capacity rate;
    tokens = N.of_ℤ (or_default capacity rate);
    last_refill = now;
  }

  -- `_refill`
  unfoldable pub refill : F → TokenBucket F → TokenBucket F
  refill now b = record b {
    tokens = min_f (N.of_ℤ b.capacity) (b.tokens ⊕ (now ⊖ b.last_refill) ⊗ N.of_ℤ b.rate);
    last_refill = now;
  }

  -- The loop of `TokenBucket.acquire`, with a reading of the clock after each sleep; none where the
  -- readings end before a token is there. It returns the readings that are left.
  unfoldable pub wait_for_token : List F → TokenBucket F → Option (TokenBucket F × List F)
  wait_for_token [] b =
      if N.lt b.tokens (of_ℕ 1) then none else some (record b { tokens = b.tokens ⊖ of_ℕ 1 }, [])
  wait_for_token (now ∷ later) b =
      let waited = wait_for_token later (refill now b) in
      if N.lt b.tokens (of_ℕ 1)
      then waited
      else some (record b { tokens = b.tokens ⊖ of_ℕ 1 }, now ∷ later)

  -- `TokenBucket.acquire`
  unfoldable pub take_token : F → List F → TokenBucket F → Option (TokenBucket F × List F)
  take_token now later b = wait_for_token later (refill now b)

module _ {F : Type 0} where
  -- `_check_daily_reset`
  abbrev pub check_daily_reset : String → RateLimiter F → RateLimiter F
  check_daily_reset today l =
      if not (str_eq today l.daily_reset_date)
      then record l { daily_count = 0; daily_reset_date = today }
      else l

  -- `RateLimiter.acquire` up to its first await, and its end
  unfoldable pub admit : String → RateLimiter F → Result (RateLimiter F)
  admit today l =
      let l' = check_daily_reset today l in
      if leb l'.daily_limit l'.daily_count then err daily_limit_exceeded else ok l'

  abbrev pub count_call : RateLimiter F → RateLimiter F
  count_call l = record l { daily_count = suc l.daily_count }

module _ {F : Type 0} ⦃N : Float F⦄ where
  -- The sleep that keeps the interval to the last call, from a reading of the clock before it
  abbrev pub interval_wait : F → RateLimiter F → Option F
  interval_wait now l =
      if N.lt (now ⊖ l.last_call_time) l.min_call_interval
      then some (l.min_call_interval ⊖ (now ⊖ l.last_call_time))
      else none

  abbrev pub granted : F → RateLimiter F → Option (TokenBucket F × List F) → Option (RateLimiter F)
  granted end l none = none
  granted end l (some (b, rest)) = some (count_call (record l { bucket = b; last_call_time = end }))

  -- `RateLimiter.acquire` of a task that calls alone: the date, the clock before the bucket, in its
  -- loop, and at the end; none where the readings of the loop end before a token is there.
  unfoldable pub acquire : String → F → List F → F → RateLimiter F → Result (Option (RateLimiter F))
  acquire today now later end l =
      admit today l >>= λ admitted. ok (granted end admitted (take_token now later admitted.bucket))

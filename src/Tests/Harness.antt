-- ===== src/Tests/Harness.antt =====
-- src/api/rate_limiter.py: a call that waits for its token.
use kis_autotrader.Common.{[], ◌∷◌}
use kis_autotrader.Common.Int.{pos}
use kis_autotrader.Float.Milli.{Milli, milli_float, Milli-IsRounded}
use kis_autotrader.RateLimiter.{TokenBucket, RateLimiter, acquire}
use kis_autotrader.RateLimiter.Calls.{IsOutcome, acquire-IsOutcome}

abbrev bucket : TokenBucket Milli
bucket = record { rate = pos 2; capacity = pos 2; tokens = pos 500; last_refill = pos 0 }

abbrev limiter : RateLimiter Milli
limiter = record {
  daily_limit = 10;
  min_call_interval = pos 500;
  bucket = bucket;
  daily_count = 9;
  daily_reset_date = "2026-01-01";
  last_call_time = pos 0;
}

-- No time has passed, then a half second.
acquire-IsOutcome_example :
    IsOutcome "2026-01-01"
      (pos 600)
      limiter
      (acquire "2026-01-01" (pos 0) (pos 500 ∷ []) (pos 600) limiter)
acquire-IsOutcome_example =
    acquire-IsOutcome Milli-IsRounded "2026-01-01" (pos 0) (pos 500 ∷ []) (pos 600) limiter

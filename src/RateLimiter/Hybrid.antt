-- ===== src/RateLimiter/Hybrid.antt =====
-- src/api/rate_limiter.py, HybridRateLimiter: Redis first, and the local limiter once Redis fails.
pub mod Within
use Prim.Native.String.{String}
use kis_autotrader.Common.{ℕ, Bool, true, false, Option, none, some, List, ◌&&◌, if◌then◌else◌}
use kis_autotrader.Float.{Float}
use kis_autotrader.Python.{
  Error, Result, ok, err, daily_limit_exceeded, rate_limit_exceeded, is_some,
}
use kis_autotrader.RateLimiter.{RateLimiter}
use kis_autotrader.RateLimiter as Local
use kis_autotrader.RateLimiter.Redis.{
  Redis, RedisRateLimiter, Answers, Ending, granted, raised, calls_counted,
}
use kis_autotrader.RateLimiter.Redis as Shared

pub record HybridRateLimiter (F : Type 0) : Type 0 where
  pub redis_limiter : Option RedisRateLimiter
  pub local_limiter : RateLimiter F
  pub using_redis : Bool

-- `HybridRateLimiter.__init__`: none where the connection to Redis fails.
abbrev pub init : {F : Type 0} → Option RedisRateLimiter → RateLimiter F → HybridRateLimiter F
init redis local = record {
  redis_limiter = redis;
  local_limiter = local;
  using_redis = is_some redis;
}

-- The answers to one call: of Redis, and of the clock to the local limiter.
pub record Call (F : Type 0) : Type 0 where
  pub today : String
  pub second : ℕ
  pub answers : Answers
  pub now : F
  pub later : List F
  pub end : F

-- How a call ends: granted, refused or failed with an exception, or still waiting for a token of
-- the local bucket when the clock's readings end.
pub data Outcome : Type 0 where
  passed : Outcome
  failed : Error → Outcome
  waiting : Outcome

-- The exceptions that are passed on, and not taken for a failure of Redis.
abbrev pub passes_on : Error → Bool
passes_on daily_limit_exceeded = true
passes_on rate_limit_exceeded = true
passes_on e = false

-- The limiter of a process, and the store that the processes share.
abbrev pub State : Type 0 → Type 0 → Type 0
State F R = HybridRateLimiter F × R

module _ {R F : Type 0} (redis : Redis R) ⦃N : Float F⦄ where
  abbrev pub settle_local :
      HybridRateLimiter F → R → Result (Option (RateLimiter F)) → State F R × Outcome
  settle_local h r (err e) = ((h, r), failed e)
  settle_local h r (ok none) = ((h, r), waiting)
  settle_local h r (ok (some l)) = ((record h { local_limiter = l }, r), passed)

  unfoldable pub acquire_local : Call F → HybridRateLimiter F → R → State F R × Outcome
  acquire_local c h r = settle_local h r (Local.acquire c.today c.now c.later c.end h.local_limiter)

  abbrev pub settle_redis : Call F → HybridRateLimiter F → R × Ending → State F R × Outcome
  settle_redis c h (r, granted slept) = ((h, r), passed)
  settle_redis c h (r, raised e) =
      if passes_on e
      then ((h, r), failed e)
      else acquire_local c (record h { using_redis = false }) r

  unfoldable pub acquire_shared :
      Call F → RedisRateLimiter → HybridRateLimiter F → R → State F R × Outcome
  unfolding acquire_local
  acquire_shared c l h r =
      settle_redis c (record h { redis_limiter = some (Shared.check_daily_key c.today l) })
        (Shared.acquire_today redis c.answers c.second (Shared.check_daily_key c.today l) r)

  abbrev pub by_limiter :
      Call F → Option RedisRateLimiter → HybridRateLimiter F → R → State F R × Outcome
  by_limiter c none h r = acquire_local c h r
  by_limiter c (some l) h r = acquire_shared c l h r

  -- `HybridRateLimiter.acquire`
  unfoldable pub acquire : Call F → State F R → State F R × Outcome
  unfolding acquire_shared acquire_local
  acquire c (h, r) = if h.using_redis then by_limiter c h.redis_limiter h r else acquire_local c h r

  -- The property `daily_count`, where Redis answers
  abbrev pub daily_count : String → State F R → ℕ
  daily_count today (h, r) =
      if h.using_redis && is_some h.redis_limiter
      then calls_counted redis today r
      else h.local_limiter.daily_count

-- ===== src/RateLimiter/Redis.antt =====
-- src/api/rate_limiter.py, RedisRateLimiter. Redis is a store of counters behind an interface; which
-- of its commands are answered is an argument, as are the date and the second of the clock.
pub mod Counted
use Prim.Native.String.{String}
use text.Mathlib.Text.{◌==◌ as str_eq}
use kis_autotrader.Common.{
  ℕ, suc, ◌-◌, ◌/◌, ◌≡◌, ◌≢◌, ◌==◌, Bool, true, false, Option, none, some, List, [], ◌∷◌, ltb, leb,
  if◌then◌else◌,
}
use kis_autotrader.Python.{Error, daily_limit_exceeded, other, or_default}

-- The keys `kis_daily_count:<date>`, `kis_rate:<second>` and `kis_quota:<role>`
pub data Key : Type 0 where
  daily_count : String → Key
  rate : ℕ → Key
  quota : String → Key

-- What the limiter uses of Redis: GET, INCR, which counts a missing key from 0, and EXPIRE. The
-- laws leave the time to live out: a date's count outlives the date.
pub record Redis (R : Type 0) : Type 0 where
  pub get : Key → R → Option ℕ
  pub incr : Key → R → R
  pub expire : Key → ℕ → R → R
  pub get-incr_self : (k : Key) (r : R) → get k (incr k r) ≡ some (suc (or_default (get k r) 0))
  pub get-incr_ne : (j k : Key) (r : R) → j ≢ k → get j (incr k r) ≡ get j r
  pub get-expire : (j k : Key) (ttl : ℕ) (r : R) → get j (expire k ttl r) ≡ get j r

pub record RedisRateLimiter : Type 0 where
  pub role : String
  pub per_second : ℕ
  pub daily_limit : ℕ
  -- The date in `_daily_count_key`, which `_last_daily_reset` repeats
  pub daily_count_date : String

-- Which commands of one call Redis answers.
pub record Answers : Type 0 where
  pub reads_count : Bool
  pub counts_second : Bool
  pub sets_expiry : Bool
  pub reads_quota : Bool
  pub counts_call : Bool

-- How a call ends: with the seconds that it slept, or with an exception.
pub data Ending : Type 0 where
  granted : ℕ → Ending
  raised : Error → Ending

-- `_check_daily_key`
abbrev pub check_daily_key : String → RedisRateLimiter → RedisRateLimiter
check_daily_key today l = record l { daily_count_date = today }

-- `n or setting`
abbrev pub count_or : Option ℕ → ℕ → ℕ
count_or none setting = setting
count_or (some n) setting = if n == 0 then setting else n

-- `daily and int(daily) >= self._daily_limit`
abbrev pub is_full : ℕ → Option ℕ → Bool
is_full limit none = false
is_full limit (some count) = leb limit count

-- `RedisRateLimiter.__init__`, with the settings behind the arguments; 0 stands for the setting.
abbrev pub init : String → Option ℕ → Option ℕ → ℕ → ℕ → String → RedisRateLimiter
init role per_second daily_limit setting_per_second setting_limit today = record {
  role = role;
  per_second = count_or per_second setting_per_second;
  daily_limit = count_or daily_limit setting_limit;
  daily_count_date = today;
}

abbrev pub max_ℕ : ℕ → ℕ → ℕ
max_ℕ a b = if ltb a b then b else a

-- `_default_quota`
abbrev pub default_quota : RedisRateLimiter → ℕ
default_quota l =
    if str_eq l.role "screener"
    then max_ℕ 1 (l.per_second / 5)
    else l.per_second - max_ℕ 1 (l.per_second / 5)

module _ {R : Type 0} (redis : Redis R) where
  -- `_get_quota`
  abbrev pub get_quota : RedisRateLimiter → R → ℕ
  get_quota l r = or_default (redis.get (quota l.role) r) (default_quota l)

  -- The pipeline behind the wait
  abbrev pub count_call : String → R → R
  count_call date r = redis.expire (daily_count date) 90000 (redis.incr (daily_count date) r)

  -- The part of `acquire` behind the count of the second
  unfoldable pub finish : Answers → ℕ → RedisRateLimiter → R → R × Ending
  finish a second l r =
      if a.reads_quota
      then (let count = or_default (redis.get (rate second) r) 0 in
          let slept = if ltb (get_quota l r) count then 1 else 0 in
          if a.counts_call
          then (count_call l.daily_count_date r, granted slept)
          else (r, raised other))
      else (r, raised other)

  -- `count = incr(second_key)`, whose key lives for two seconds from the first call on
  unfoldable pub count_second : Answers → ℕ → RedisRateLimiter → R → R × Ending
  unfolding finish
  count_second a second l r =
      let counted = redis.incr (rate second) r in
      if or_default (redis.get (rate second) counted) 0 == 1
      then (if a.sets_expiry
          then finish a second l (redis.expire (rate second) 2 counted)
          else (counted, raised other))
      else finish a second l counted

  -- `RedisRateLimiter.acquire`, of a limiter whose key has the date of today
  unfoldable pub acquire_today : Answers → ℕ → RedisRateLimiter → R → R × Ending
  acquire_today a second l r =
      if a.reads_count
      then (if is_full l.daily_limit (redis.get (daily_count l.daily_count_date) r)
          then (r, raised daily_limit_exceeded)
          else if a.counts_second
          then count_second a second l r
          else (r, raised other))
      else (r, raised other)

  unfoldable pub acquire :
      Answers → String → ℕ → RedisRateLimiter → R → RedisRateLimiter × R × Ending
  acquire a today second l r =
      let l' = check_daily_key today l in
      let (r', ending) = acquire_today a second l' r in (l', r', ending)

  -- The property `daily_count`
  abbrev pub calls_counted : String → R → ℕ
  calls_counted today r = or_default (redis.get (daily_count today) r) 0

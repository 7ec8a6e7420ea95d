-- ===== src/Tests/Limits.antt =====
-- src/api/rate_limiter.py: a Redis that fails at the second call of the day.
use text.Mathlib.Text.{◌==◌ as str_eq}
use text.Mathlib.TextPositions.{eq_refl}
use kis_autotrader.Common.{
  ℕ, suc, ◌+◌, ◌≤◌, ◌≡◌, ◌≢◌, refl, ap, Bool, true, false, Option, none, some, [], ◌∷◌, arith, inl,
  inr, Bool-cases, ◌==◌, ==_iff, if◌then◌else◌,
}
use kis_autotrader.Common.Texts.{str_eq_path}
use kis_autotrader.Common.Int.{pos}
use kis_autotrader.Float.Milli.{Milli, milli_float}
use kis_autotrader.Python.{or_default}
use kis_autotrader.RateLimiter.{RateLimiter}
use kis_autotrader.RateLimiter.Calls.{calls_on}
use kis_autotrader.RateLimiter.Redis.{Key, daily_count, rate, quota, Redis, calls_counted}
use kis_autotrader.RateLimiter.Hybrid.{HybridRateLimiter, Call}
use kis_autotrader.RateLimiter.Hybrid.Within.{IsWithin, acquire_all, acquire_all_bounds}

abbrev Store : Type 0
Store = Key → Option ℕ

abbrev key_eq : Key → Key → Bool
key_eq (daily_count d) (daily_count e) = str_eq d e
key_eq (rate m) (rate n) = m == n
key_eq (quota s) (quota t) = str_eq s t
key_eq (daily_count d) (rate n) = false
key_eq (daily_count d) (quota t) = false
key_eq (rate m) (daily_count e) = false
key_eq (rate m) (quota t) = false
key_eq (quota s) (daily_count e) = false
key_eq (quota s) (rate n) = false

key_eq_self : (k : Key) → key_eq k k ≡ true
key_eq_self (daily_count d) = eq_refl d
key_eq_self (rate n) = ground arith
key_eq_self (quota s) = eq_refl s

eq_of_key_eq : (j k : Key) → key_eq j k ≡ true → j ≡ k
eq_of_key_eq (daily_count d) (daily_count e) h = ap daily_count (str_eq_path d e h)
eq_of_key_eq (rate m) (rate n) h = ap rate ((==_iff m n).0 h)
eq_of_key_eq (quota s) (quota t) h = ap quota (str_eq_path s t h)
eq_of_key_eq (daily_count d) (rate n) h = cc
eq_of_key_eq (daily_count d) (quota t) h = cc
eq_of_key_eq (rate m) (daily_count e) h = cc
eq_of_key_eq (rate m) (quota t) h = cc
eq_of_key_eq (quota s) (daily_count e) h = cc
eq_of_key_eq (quota s) (rate n) h = cc

abbrev incr : Key → Store → Store
incr k r j = if key_eq j k then some (suc (or_default (r j) 0)) else r j

incr_self : (k : Key) (r : Store) → incr k r k ≡ some (suc (or_default (r k) 0))
incr_self k r = rw (key_eq_self k) refl

incr_ne : (j k : Key) (r : Store) → j ≢ k → incr k r j ≡ r j
incr_ne j k r h = elim (Bool-cases (key_eq j k)) [
  | inl e ↦ absurd (h (eq_of_key_eq j k e))
  | inr e ↦ rw e refl
]

abbrev redis : Redis Store
redis = record {
  get = λ k r. r k;
  incr = incr;
  expire = λ k ttl r. r;
  get-incr_self = incr_self;
  get-incr_ne = incr_ne;
  get-expire = λ j k ttl r. refl;
}

abbrev empty : Store
empty k = none

abbrev local : RateLimiter Milli
local = record {
  daily_limit = 10;
  min_call_interval = pos 500;
  bucket = record { rate = pos 2; capacity = pos 2; tokens = pos 2000; last_refill = pos 0 };
  daily_count = 0;
  daily_reset_date = "2026-01-01";
  last_call_time = pos 0;
}

abbrev limiter : HybridRateLimiter Milli
limiter = record {
  redis_limiter = some (record {
    role = "main";
    per_second = 20;
    daily_limit = 10;
    daily_count_date = "2026-01-01";
  });
  local_limiter = local;
  using_redis = true;
}

abbrev call : Bool → Call Milli
call answered = record {
  today = "2026-01-01";
  second = 7;
  answers = record {
    reads_count = answered;
    counts_second = true;
    sets_expiry = true;
    reads_quota = true;
    counts_call = true;
  };
  now = pos 0;
  later = [];
  end = pos 0;
}

fresh-IsWithin : IsWithin redis "2026-01-01" 10 10 0 (limiter, empty)
fresh-IsWithin = record {
  positive = omega arith;
  shared_limit_lem = λ l e. ground (arith, e);
  local_limit_lem = refl;
  shared_le = omega arith;
  local_le = omega arith;
  counted = omega arith;
}

acquire_all_bounds_example :
    let (n, (h, r)) =
      acquire_all redis "2026-01-01" 10 10 (call true ∷ call false ∷ []) (limiter, empty) 0 in
    (n ≤ 10 + 10)
    × (calls_counted redis "2026-01-01" r ≤ 10)
    × (calls_on "2026-01-01" h.local_limiter ≤ 10)
acquire_all_bounds_example =
    acquire_all_bounds redis "2026-01-01" 10 10 (call true ∷ call false ∷ []) (limiter, empty)
      (refl, (refl, tt)) fresh-IsWithin

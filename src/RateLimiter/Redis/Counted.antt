-- ===== src/RateLimiter/Redis/Counted.antt =====
-- What one call does to the count of the day.
use Prim.Native.String.{String}
use kis_autotrader.Common.{
  ℕ, suc, ◌≤◌, ◌<◌, ◌≡◌, ◌≢◌, refl, ap, ◌∙◌, arith, inl, inr, ◌==◌, Bool, true, false, Bool-cases,
  Option-cases, ltb, if◌then◌else◌,
}
use kis_autotrader.Python.{or_default}
use kis_autotrader.RateLimiter.Redis.{
  daily_count, rate, Redis, RedisRateLimiter, Answers, Ending, granted, raised, is_full, get_quota,
  count_call, finish, count_second, acquire_today, calls_counted,
}

daily-ne-rate : (d : String) (n : ℕ) → daily_count d ≢ rate n
daily-ne-rate d n e = cc

module _ {R : Type 0} (redis : Redis R) where
  -- A call that is granted is counted for its date, and sleeps a second at most; one that is
  -- refused for the day or fails is not.
  abbrev pub IsCounted : String → R → R × Ending → Type 0
  IsCounted date r (r', granted slept) =
      (calls_counted redis date r' ≡ suc (calls_counted redis date r)) × (slept ≤ 1)
  IsCounted date r (r', raised e) = calls_counted redis date r' ≡ calls_counted redis date r

  count_call-calls_counted :
      (date : String) (r : R)
      → calls_counted redis date (count_call redis date r) ≡ suc (calls_counted redis date r)
  count_call-calls_counted date r =
      ap (λ o. or_default o 0)
        (redis.get-expire (daily_count date) (daily_count date) 90000
            (redis.incr (daily_count date) r)
          ∙ redis.get-incr_self (daily_count date) r)

  finish-IsCounted :
      (a : Answers) (second : ℕ) (l : RedisRateLimiter) (r r' : R)
      → calls_counted redis l.daily_count_date r' ≡ calls_counted redis l.daily_count_date r
      → IsCounted l.daily_count_date r (finish redis a second l r')
  unfolding finish
  finish-IsCounted a second l r r' same = elim (Bool-cases a.reads_quota) [
    | inr e ↦ rw e same
    | inl e ↦ rw e (elim (Bool-cases a.counts_call) [
      | inr f ↦ rw f same
      | inl f ↦ rw f (
        count_call-calls_counted l.daily_count_date r' ∙ ap suc same,
        slept_le (ltb (get_quota redis l r') (or_default (redis.get (rate second) r') 0)),
      )
    ])
  ]
    where
      slept_le : (b : Bool) → (if b then 1 else 0) ≤ 1
      slept_le true = omega arith
      slept_le false = omega arith

  count_second-IsCounted :
      (a : Answers) (second : ℕ) (l : RedisRateLimiter) (r : R)
      → IsCounted l.daily_count_date r (count_second redis a second l r)
  unfolding count_second
  count_second-IsCounted a second l r =
      elim (Bool-cases (or_default (redis.get (rate second) counted) 0 == 1)) [
        | inr e ↦ rw e (finish-IsCounted a second l r counted same)
        | inl e ↦ rw e (elim (Bool-cases a.sets_expiry) [
          | inr f ↦ rw f same
          | inl f ↦ rw f (
              finish-IsCounted a second l r (redis.expire (rate second) 2 counted) (
                ap (λ o. or_default o 0)
                  (redis.get-expire (daily_count l.daily_count_date) (rate second) 2 counted)
                ∙ same))
        ])
      ]
    where
      counted : R
      counted = redis.incr (rate second) r

      same :
          calls_counted redis l.daily_count_date counted ≡ calls_counted redis l.daily_count_date r
      same =
          ap (λ o. or_default o 0)
            (redis.get-incr_ne (daily_count l.daily_count_date) (rate second) r
              (daily-ne-rate l.daily_count_date second))

  -- A granted call was below the limit of its date, if the limit is positive.
  abbrev pub IsBelow : String → ℕ → R → R × Ending → Type 0
  IsBelow date limit r (r', granted slept) = calls_counted redis date r < limit
  IsBelow date limit r (r', raised e) = Unit

  pub acquire_today-IsCounted :
      (a : Answers) (second : ℕ) (l : RedisRateLimiter) (r : R)
      → 0 < l.daily_limit
      → IsCounted l.daily_count_date r (acquire_today redis a second l r)
        × IsBelow l.daily_count_date l.daily_limit r (acquire_today redis a second l r)
  unfolding acquire_today count_second
  acquire_today-IsCounted a second l r positive = elim (Bool-cases a.reads_count) [
    | inr e ↦ rw e (refl, tt)
    | inl e ↦
        rw e
          (elim (Bool-cases
            (is_full l.daily_limit (redis.get (daily_count l.daily_count_date) r))) [
              | inl f ↦ rw f (refl, tt)
              | inr f ↦ rw f (elim (Bool-cases a.counts_second) [
                | inr g ↦ rw g (refl, tt)
                | inl g ↦ rw g (
                  count_second-IsCounted a second l r,
                  whenever (count_second redis a second l r) (below f),
                )
              ])
            ])
  ]
    where
      whenever :
          (o : R × Ending)
          → calls_counted redis l.daily_count_date r < l.daily_limit
          → IsBelow l.daily_count_date l.daily_limit r o
      whenever (r', granted slept) h = h
      whenever (r', raised e) h = tt

      below :
          is_full l.daily_limit (redis.get (daily_count l.daily_count_date) r) ≡ false
          → calls_counted redis l.daily_count_date r < l.daily_limit
      below f = elim (Option-cases (redis.get (daily_count l.daily_count_date) r)) [
        | inl e ↦ rw e positive
        | inr (n, e) ↦ rw e (ground (arith, f, e))
      ]

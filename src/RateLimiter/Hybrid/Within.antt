-- ===== src/RateLimiter/Hybrid/Within.antt =====
-- The calls of a day with a fallback.
use Prim.Native.String.{String}
use text.Mathlib.TextPositions.{eq_refl}
use kis_autotrader.Common.{
  ℕ, suc, ◌+◌, ◌≤◌, ◌<◌, ◌≡◌, refl, sym, ap, subst, ◌∙◌, arith, Bool, true, false, Option, none,
  some, List, [], ◌∷◌, All, inl, inr, Bool-cases, Option-cases, leb, if◌then◌else◌,
}
use kis_autotrader.Float.{Float}
use kis_autotrader.Python.{Result, ok, err}
use kis_autotrader.RateLimiter.{
  RateLimiter, admit, check_daily_reset, granted as granted_local, take_token,
}
use kis_autotrader.RateLimiter as Local
use kis_autotrader.RateLimiter.Calls.{calls_on}
use kis_autotrader.RateLimiter.Redis.{
  Redis, RedisRateLimiter, Ending, granted, raised, calls_counted, acquire_today, check_daily_key,
}
use kis_autotrader.RateLimiter.Redis.Counted.{IsCounted, IsBelow, acquire_today-IsCounted}
use kis_autotrader.RateLimiter.Hybrid.{
  HybridRateLimiter, Call, Outcome, passed, failed, waiting, passes_on, State, settle_local,
  acquire_local, settle_redis, acquire_shared, by_limiter, acquire,
}

module _ {F : Type 0} ⦃N : Float F⦄ where
  -- A call that the local limiter grants is counted for its date, below the limit.
  abbrev IsGranted : String → RateLimiter F → Result (Option (RateLimiter F)) → Type 0
  IsGranted today l (err e) = Unit
  IsGranted today l (ok none) = Unit
  IsGranted today l (ok (some l')) =
      (calls_on today l < l.daily_limit)
      × (calls_on today l' ≡ suc (calls_on today l))
      × (l'.daily_limit ≡ l.daily_limit)

  local-IsGranted :
      (today : String) (now : F) (later : List F) (end : F) (l : RateLimiter F)
      → IsGranted today l (Local.acquire today now later end l)
  unfolding Local.acquire admit
  local-IsGranted today now later end l =
      let m = check_daily_reset today l in
      elim (Bool-cases (leb m.daily_limit m.daily_count)) [
        | inl full ↦ rw full tt
        | inr free ↦ rw free (elim (Option-cases (take_token now later m.bucket)) [
          | inl e ↦ rw e tt
          | inr ((b, rest), e) ↦ rw e (ground arith, ground (arith, eq_refl today), ground arith)
        ])
      ]

-- The number of calls that passed, one call on.
abbrev pub passes : Outcome → ℕ → ℕ
passes passed n = suc n
passes (failed e) n = n
passes waiting n = n

limit_of : Option RedisRateLimiter → ℕ
limit_of none = 0
limit_of (some l) = l.daily_limit

module _ {R F : Type 0} (redis : Redis R) ⦃N : Float F⦄ (today : String)
    (shared_limit local_limit : ℕ) where
  -- The limits of the two limiters, and the calls that each of them has counted for the date, which
  -- are `n` at least together.
  pub record IsWithin (n : ℕ) (s : State F R) : Type 0 where
    pub positive : 0 < shared_limit
    pub shared_limit_lem :
        (l : RedisRateLimiter) → s.0.redis_limiter ≡ some l → l.daily_limit ≡ shared_limit
    pub local_limit_lem : s.0.local_limiter.daily_limit ≡ local_limit
    pub shared_le : calls_counted redis today s.1 ≤ shared_limit
    pub local_le : calls_on today s.0.local_limiter ≤ local_limit
    pub counted : n ≤ calls_counted redis today s.1 + calls_on today s.0.local_limiter

  abbrev After : ℕ → State F R × Outcome → Type 0
  After n o = IsWithin (passes o.1 n) o.0

  acquire_local-IsWithin :
      (n : ℕ) (c : Call F) (h : HybridRateLimiter F) (r : R)
      → c.today ≡ today
      → IsWithin n (h, r)
      → After n (acquire_local redis c h r)
  unfolding acquire_local
  acquire_local-IsWithin n c h r e w =
      settle (Local.acquire c.today c.now c.later c.end h.local_limiter) (
        subst
          (λ d.
            IsGranted d h.local_limiter (Local.acquire c.today c.now c.later c.end h.local_limiter))
          e (local-IsGranted c.today c.now c.later c.end h.local_limiter))
    where
      settle :
          (o : Result (Option (RateLimiter F)))
          → IsGranted today h.local_limiter o
          → After n (settle_local redis h r o)
      settle (err x) g = w
      settle (ok none) g = w
      settle (ok (some l)) (below, counted, same) = record {
        positive = w.positive;
        shared_limit_lem = w.shared_limit_lem;
        local_limit_lem = same ∙ w.local_limit_lem;
        shared_le = w.shared_le;
        local_le = omega (arith, w.local_limit_lem);
        counted = omega (arith, w.counted);
      }

  acquire_shared-IsWithin :
      (n : ℕ) (c : Call F) (l : RedisRateLimiter) (h : HybridRateLimiter F) (r : R)
      → c.today ≡ today
      → h.redis_limiter ≡ some l
      → IsWithin n (h, r)
      → After n (acquire_shared redis c l h r)
  unfolding acquire_shared limit_of
  acquire_shared-IsWithin n c l h r e q w =
      let limit : l.daily_limit ≡ shared_limit = w.shared_limit_lem l q in
      let (counted, below) =
        acquire_today-IsCounted redis c.answers c.second (check_daily_key today l) r
          (subst (λ k. 0 < k) (sym limit) w.positive) in
      settle (acquire_today redis c.answers c.second (check_daily_key c.today l) r)
        (subst
          (λ d.
            IsCounted redis today r
              (acquire_today redis c.answers c.second (check_daily_key d l) r))
          (sym e) counted)
        (subst
          (λ d.
            IsBelow redis today l.daily_limit r
              (acquire_today redis c.answers c.second (check_daily_key d l) r))
          (sym e) below)
    where
      keyed : HybridRateLimiter F
      keyed = record h { redis_limiter = some (check_daily_key c.today l) }

      keyed_limit :
          (k : RedisRateLimiter) → keyed.redis_limiter ≡ some k → k.daily_limit ≡ shared_limit
      keyed_limit k f = sym (ap limit_of f) ∙ w.shared_limit_lem l q

      settle :
          (o : R × Ending)
          → IsCounted redis today r o
          → IsBelow redis today l.daily_limit r o
          → After n (settle_redis redis c keyed o)
      settle (r', granted slept) (counted, short) below = record {
        positive = w.positive;
        shared_limit_lem = keyed_limit;
        local_limit_lem = w.local_limit_lem;
        shared_le = omega (arith, w.shared_limit_lem l q);
        local_le = w.local_le;
        counted = omega (arith, w.counted);
      }
      settle (r', raised x) counted below = either (passes_on x)
        where
          kept : (b : Bool) → IsWithin n (record keyed { using_redis = b }, r')
          kept b = record {
            positive = w.positive;
            shared_limit_lem = keyed_limit;
            local_limit_lem = w.local_limit_lem;
            shared_le = omega (arith, w.shared_le);
            local_le = w.local_le;
            counted = omega (arith, w.counted);
          }

          either :
              (b : Bool)
              → After n (
                  if b
                  then ((keyed, r'), failed x)
                  else acquire_local redis c (record keyed { using_redis = false }) r')
          either true = kept keyed.using_redis
          either false =
              acquire_local-IsWithin n c (record keyed { using_redis = false }) r' e (kept false)

  acquire-IsWithin :
      (n : ℕ) (c : Call F) (s : State F R)
      → c.today ≡ today
      → IsWithin n s
      → After n (acquire redis c s)
  unfolding acquire
  acquire-IsWithin n c (h, r) e w = either h.using_redis
    where
      by_shared :
          (l : Option RedisRateLimiter) → h.redis_limiter ≡ l → After n (by_limiter redis c l h r)
      by_shared none q = acquire_local-IsWithin n c h r e w
      by_shared (some l) q = acquire_shared-IsWithin n c l h r e q w

      either :
          (b : Bool)
          → After n
              (if b then by_limiter redis c h.redis_limiter h r else acquire_local redis c h r)
      either true = by_shared h.redis_limiter refl
      either false = acquire_local-IsWithin n c h r e w

  -- The calls of a run that pass, and the state behind it.
  abbrev pub acquire_all : List (Call F) → State F R → ℕ → ℕ × State F R
  acquire_all [] s n = (n, s)
  acquire_all (c ∷ calls) s n =
      acquire_all calls (acquire redis c s).0 (passes (acquire redis c s).1 n)

  acquire_all-IsWithin :
      (calls : List (Call F)) (s : State F R) (n : ℕ)
      → All (λ (c : Call F). c.today ≡ today) calls
      → IsWithin n s
      → IsWithin (acquire_all calls s n).0 (acquire_all calls s n).1
  acquire_all-IsWithin [] s n e w = w
  acquire_all-IsWithin (c ∷ calls) s n (e, es) w =
      acquire_all-IsWithin calls (acquire redis c s).0 (passes (acquire redis c s).1 n) es
        (acquire-IsWithin n c s e w)

  -- Whatever Redis answers, and whenever it fails, the calls of one day that pass are at most the
  -- two limits together; each limiter keeps its own. The calls come one after the other, and the
  -- limit of Redis is positive.
  pub acquire_all_bounds :
      (calls : List (Call F)) (s : State F R)
      → All (λ (c : Call F). c.today ≡ today) calls
      → IsWithin 0 s
      → let (n, (h, r)) = acquire_all calls s 0 in
        (n ≤ shared_limit + local_limit)
        × (calls_counted redis today r ≤ shared_limit)
        × (calls_on today h.local_limiter ≤ local_limit)
  acquire_all_bounds calls s e w =
      let w' = acquire_all-IsWithin calls s 0 e w in
      (omega (arith, w'.counted, w'.shared_le, w'.local_le), w'.shared_le, w'.local_le)

-- ===== src/RateLimiter/Calls.antt =====
-- A whole call of the limiter, by a task that calls alone.
use Prim.Native.String.{String}
use text.Mathlib.Text.{◌==◌ as str_eq}
use kis_autotrader.Common.{
  ℕ, suc, ◌≤◌, ◌<◌, ◌≡◌, refl, ap, subst, Option, none, some, List, arith, inl, inr, Bool-cases,
  Option-cases, leb, if◌then◌else◌,
}
use kis_autotrader.Float.{Float, IsRounded}
use kis_autotrader.Python.{Result, ok, err}
use kis_autotrader.RateLimiter.{
  TokenBucket, RateLimiter, take_token, check_daily_reset, admit, granted, acquire,
}
use kis_autotrader.RateLimiter.Bucket.{IsLeft, take_token_bounds}

module _ {F : Type 0} ⦃N : Float F⦄ where
  -- The calls that count against the limit of the date.
  abbrev pub calls_on : String → RateLimiter F → ℕ
  calls_on today l = if str_eq today l.daily_reset_date then l.daily_count else 0

  -- Refused at the limit; or waiting for a token below it; or counted, within the limit, with a
  -- bucket within its bounds and the time of the call noted.
  abbrev pub IsOutcome : String → F → RateLimiter F → Result (Option (RateLimiter F)) → Type 0
  IsOutcome today end l (err e) = l.daily_limit ≤ calls_on today l
  IsOutcome today end l (ok none) = calls_on today l < l.daily_limit
  IsOutcome today end l (ok (some l')) =
      (calls_on today l < l.daily_limit)
      × (l'.daily_count ≡ suc (calls_on today l))
      × (l'.daily_limit ≡ l.daily_limit)
      × (l'.last_call_time ≡ end)
      × IsLeft l.bucket.capacity l'.bucket

module _ {F : Type 0} ⦃N : Float F⦄ (laws : IsRounded F) where
  granted-IsOutcome :
      (today : String) (now : F) (later : List F) (end : F) (l m : RateLimiter F)
      → calls_on today l < l.daily_limit
      → m.daily_count ≡ calls_on today l
      → m.daily_limit ≡ l.daily_limit
      → m.bucket ≡ l.bucket
      → IsOutcome today end l (ok (granted end m (take_token now later m.bucket)))
  granted-IsOutcome today now later end l m free count limit same =
      elim (Option-cases (take_token now later m.bucket)) [
        | inl e ↦ rw e free
        | inr ((b, rest), e) ↦ rw e (
          free,
          ap suc count,
          limit,
          refl,
          subst (λ (c : TokenBucket F). IsLeft c.capacity b) same
              (take_token_bounds laws now later m.bucket b rest e),
        )
      ]

  -- A call that is alone is refused exactly where the date's calls have reached the limit; one that
  -- gets its token counts one more call, never more than the limit, and leaves the bucket within
  -- its bounds; one that still waits was below the limit.
  pub acquire-IsOutcome :
      (today : String) (now : F) (later : List F) (end : F) (l : RateLimiter F)
      → IsOutcome today end l (acquire today now later end l)
  unfolding acquire admit
  acquire-IsOutcome today now later end l =
      let m = check_daily_reset today l in
      elim (Bool-cases (leb m.daily_limit m.daily_count)) [
        | inl full ↦ rw full (ground arith)
        | inr free ↦ rw free (
            granted-IsOutcome today now later end l m (ground arith) (ground arith) (ground arith)
              (ground arith))
      ]

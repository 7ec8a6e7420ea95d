-- ===== src/Tests/Client.antt =====
-- src/api/client.py: an order whose first attempt is throttled and whose second one fails.
use Prim.Native.String.{String}
use kis_autotrader.Common.{
  ℕ, ◌-◌, ◌≤◌, ◌≡◌, refl, true, false, ◌==◌, none, [], ◌∷◌, length, arith, if◌then◌else◌,
}
use kis_autotrader.Common.Int.{pos, ◌*ℤ◌, ◌-ℤ◌}
use kis_autotrader.Float.Milli.{Milli, milli_float, Milli-IsRounded}
use kis_autotrader.Python.{ok}
use kis_autotrader.Client.Breaker.{
  CircuitBreaker, new_breaker, is_available, record_success, record_failure, try_half_open,
}
use kis_autotrader.Client.Breaker.Trips.{record_failures, record_failures-trip_count}
use kis_autotrader.Client.Request.{Attempt, max_retries, attempts, request}
use kis_autotrader.Client.Request.Sent.{IsOnce, request-IsOnce}
use kis_autotrader.Client.Request.Kept.{Call, after_calls, after_calls-is_available}

abbrev now : ℕ → Milli
now n = pos (10000 - n)

abbrev answer : ℕ → Attempt Milli String
answer n =
    if n == 2
    then Attempt.responded (record { status = 429; retry_after = ok (pos 1000); json = ok "" })
    else Attempt.unreachable

abbrev breaker : CircuitBreaker Milli
unfolding milli_float ◌*ℤ◌
breaker = new_breaker 5 (pos 30000)

request-IsOnce_example :
    let sent = (request false now answer (pos 9000) none breaker).sent in
    IsOnce sent × (length sent ≤ max_retries)
request-IsOnce_example = request-IsOnce now answer (pos 9000) none breaker

-- Three failures before the threshold of 5, then three more: the breaker trips twice.
abbrev failing : CircuitBreaker Milli
failing = record breaker { failure_count = 3 }

record_failures-trip_count_example :
    let b = record_failures (pos 1 ∷ pos 2 ∷ pos 3 ∷ []) failing in
    (b.failure_count ≡ 6) × (b.trip_count ≡ 2)
unfolding breaker
record_failures-trip_count_example =
    record_failures-trip_count (pos 1 ∷ pos 2 ∷ pos 3 ∷ []) failing (omega arith)

abbrev order : Call Milli String
order = record { idempotent = false; now = now; attempt = answer; start = pos 9000; prepare = none }

after_calls-is_available_example :
    let b = after_calls (order ∷ order ∷ []) (new_breaker 5 (pos 30000)) in
    ((is_available (pos 400000) b).0 ≡ true)
    × ((is_available (pos 400000) b).1.is_open_flag ≡ false)
unfolding milli_float ◌*ℤ◌ ◌-ℤ◌ request attempts is_available record_failure record_success
    try_half_open
after_calls-is_available_example =
    after_calls-is_available Milli-IsRounded 5 (pos 30000) (pos 400000) (order ∷ order ∷ [])
      (omega arith) refl refl

-- ===== src/Client/Request.antt =====
-- src/api/client.py, `KISClient._request`. What the limiter, the server and the clock answer to each
-- attempt is an argument. The headers and the body are left out; an exception of the program that no
-- caller tells apart is `other`.
pub mod Sent
pub mod Kept
use kis_autotrader.Common.{
  ℕ, zero, suc, Bool, true, false, not, leb, ◌==◌, Option, none, some, List, [], ◌∷◌, if◌then◌else◌,
}
use kis_autotrader.Float.{Float}
use kis_autotrader.Python.{Error, other, Result, ok, err, ◌>>=◌}
use kis_autotrader.Client.Breaker.{CircuitBreaker, is_available, record_success, record_failure}

-- An HTTP response: the status, the header Retry-After read as a number, and the body read as JSON.
pub record Response (F A : Type 0) : Type 0 where
  pub status : ℕ
  pub retry_after : Result F
  pub json : Result A

-- One attempt: the limiter raises, or the request is sent and the network fails or a response comes.
pub data Attempt (F A : Type 0) : Type 0 where
  limited : (raised : Error) → Attempt F A
  unreachable : Attempt F A
  responded : (response : Response F A) → Attempt F A

-- The result of a call, the breaker behind it, and for each request that was sent, in their order,
-- the status of its response, none where the network failed.
pub record Ending (F A : Type 0) : Type 0 where
  pub result : Result A
  pub breaker : CircuitBreaker F
  pub sent : List (Option ℕ)

-- `MAX_RETRIES`
abbrev pub max_retries : ℕ
max_retries = 3

module _ {F A : Type 0} ⦃N : Float F⦄ where
  -- One more request in front of the rest of the loop.
  abbrev pub after : Option ℕ → Ending F A → Ending F A
  after status e = record e { sent = status ∷ e.sent }

  abbrev pub stop : Option ℕ → Result A → CircuitBreaker F → Ending F A
  stop status r b = record { result = r; breaker = b; sent = status ∷ [] }

  -- `await asyncio.sleep(float(retry_after))`, which raises where the header is not a number
  abbrev pub throttle : Option ℕ → Result F → CircuitBreaker F → Ending F A → Ending F A
  throttle status (ok delay) b rest = after status rest
  throttle status (err e) b rest = stop status (err e) b

  -- A failure after which the server may have carried out the request: only an idempotent one is
  -- sent again.
  abbrev pub retry : Bool → Option ℕ → CircuitBreaker F → Ending F A → Ending F A
  retry idempotent status failed rest =
      if not idempotent then stop status (err other) failed else after status rest

  module _ (idempotent : Bool) (now : ℕ → F) (attempt : ℕ → Attempt F A) where
    -- The loop with `n` attempts left; `now n` and `attempt n` are those of the next one.
    unfoldable pub attempts : ℕ → CircuitBreaker F → Ending F A
    attempts zero b = record { result = err other; breaker = b; sent = [] }
    attempts (suc n) b =
        let failed = record_failure (now n) b in
        let rest = attempts n b in
        let rest_failed = attempts n failed in
        elim (attempt n) [
          | limited e ↦ record { result = err e; breaker = b; sent = [] }
          | unreachable ↦ retry idempotent none failed rest_failed
          | responded r ↦
              if r.status == 429
              then throttle (some r.status) r.retry_after b rest
              else if leb 500 r.status
              then retry idempotent (some r.status) failed rest_failed
              else if leb 400 r.status
              then stop (some r.status) (err other) failed
              else stop (some r.status) r.json (record_success b)
        ]

    -- `_request`; `prepare` is what the calls for the token and the hash key raise.
    unfoldable pub request : F → Option Error → CircuitBreaker F → Ending F A
    request start prepare b =
        let (available, b') = is_available start b in
        if not available
        then record { result = err other; breaker = b'; sent = [] }
        else elim prepare [
          | some e ↦ record { result = err e; breaker = b'; sent = [] }
          | none ↦ attempts max_retries b'
        ]

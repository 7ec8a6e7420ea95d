-- ===== src/Client/Request/Sent.antt =====
-- What a call of the client sends.
use kis_autotrader.Common.{
  ℕ, zero, suc, ◌≤◌, ◌≡◌, refl, Bool, true, false, not, leb, ◌==◌, Option, none, some, List, [],
  ◌∷◌, length, arith, ap, ==_iff, if◌then◌else◌,
}
use kis_autotrader.Float.{Float}
use kis_autotrader.Python.{Error, Result, ok, err}
use kis_autotrader.Client.Breaker.{CircuitBreaker, is_available}
use kis_autotrader.Client.Request.{Attempt, Ending, max_retries, throttle, attempts, request}

-- Every request but the last was answered with the status 429.
abbrev pub IsOnce : List (Option ℕ) → Type 0
IsOnce [] = Unit
IsOnce (status ∷ []) = Unit
IsOnce (status ∷ next ∷ rest) = (status ≡ some 429) × IsOnce (next ∷ rest)

cons-IsOnce :
    (status : Option ℕ) (sent : List (Option ℕ))
    → status ≡ some 429
    → IsOnce sent
    → IsOnce (status ∷ sent)
cons-IsOnce status [] e once = tt
cons-IsOnce status (next ∷ rest) e once = (e, once)

module _ {F A : Type 0} ⦃N : Float F⦄ where
  -- What is shown of the end of a call that may send `n` requests.
  abbrev IsSafe : ℕ → Ending F A → Type 0
  IsSafe n e = IsOnce e.sent × (length e.sent ≤ n)

  if_IsSafe :
      (n : ℕ) (b : Bool) (x y : Ending F A)
      → (b ≡ true → IsSafe n x)
      → IsSafe n y
      → IsSafe n (if b then x else y)
  if_IsSafe n true x y p q = p refl
  if_IsSafe n false x y p q = q

  throttle-IsSafe :
      (n : ℕ) (status : ℕ) (r : Result F) (b : CircuitBreaker F) (e : Ending F A)
      → status ≡ 429
      → IsSafe n e
      → IsSafe (suc n) (throttle (some status) r b e)
  throttle-IsSafe n status (ok delay) b e q (once, short) =
      (cons-IsOnce (some status) e.sent (ap some q) once, omega arith)
  throttle-IsSafe n status (err x) b e q (once, short) = (tt, omega arith)

  module _ (now : ℕ → F) (attempt : ℕ → Attempt F A) where
    attempts-IsSafe : (n : ℕ) (b : CircuitBreaker F) → IsSafe n (attempts false now attempt n b)
    unfolding attempts
    attempts-IsSafe zero b = (tt, omega arith)
    attempts-IsSafe (suc n) b = answered (attempts-IsSafe n b) (attempt n) refl
      where
        answered :
            IsSafe n (attempts false now attempt n b)
            → (a : Attempt F A) → attempt n ≡ a
            → IsSafe (suc n) (attempts false now attempt (suc n) b)
        answered rest (Attempt.limited e) h = rw (attempts, h) (tt, omega arith)
        answered rest Attempt.unreachable h = rw (attempts, h) (tt, omega arith)
        answered rest (Attempt.responded r) h =
            rw (attempts, h)
              (if_IsSafe (suc n) (r.status == 429) _ _
                (λ e. throttle-IsSafe n r.status r.retry_after b _ ((==_iff r.status 429).0 e) rest)
                (if_IsSafe (suc n) (leb 500 r.status) _ _ (λ _. (tt, omega arith))
                  (if_IsSafe (suc n) (leb 400 r.status) _ _ (λ _. (tt, omega arith))
                    (tt, omega arith))))

    -- A call that is not idempotent, such as an order, is sent again only after the server answered
    -- it with the status 429: so were all requests before the last one, and there are 3 at most.
    pub request-IsOnce :
        (start : F) (prepare : Option Error) (b : CircuitBreaker F)
        → let sent = (request false now attempt start prepare b).sent in
          IsOnce sent × (length sent ≤ max_retries)
    unfolding request
    request-IsOnce start none b =
        if_IsSafe max_retries (not (is_available start b).0) _ _ (λ _. (tt, omega arith))
          (attempts-IsSafe max_retries (is_available start b).1)
    request-IsOnce start (some e) b =
        if_IsSafe max_retries (not (is_available start b).0) _ _ (λ _. (tt, omega arith))
          (tt, omega arith)

-- ===== src/RateLimiter/Bucket.antt =====
-- The tokens of a bucket.
use kis_autotrader.Common.{◌≡◌, inl, inr, refl, false, some, List, [], ◌∷◌, arith, Bool-cases}
use kis_autotrader.Common.Int.{ℤ, pos, ◌≤ℤ◌}
use kis_autotrader.Float.{Float, IsRounded, of_ℕ, ◌⊕◌, ◌⊖◌, ◌⊗◌, ◌≼◌, min_f}
use kis_autotrader.Float.Laws.{le_of_not_lt, sub_nonneg, mul_nonneg, le-add_right}
use kis_autotrader.RateLimiter.{TokenBucket, refill, wait_for_token, take_token}

module _ {F : Type 0} ⦃N : Float F⦄ where
  -- What a call leaves in a bucket of the capacity.
  abbrev pub IsLeft : ℤ → TokenBucket F → Type 0
  IsLeft c b = (b.capacity ≡ c) × (of_ℕ 0 ≼ b.tokens) × (b.tokens ≼ N.of_ℤ c ⊖ of_ℕ 1)

module _ {F : Type 0} ⦃N : Float F⦄ (laws : IsRounded F) where
  open laws use {le_refl, le_trans, sub_mono, le_total, of_ℤ_mono, lt-eq-not_le}

  min_f-le : (x y : F) → min_f x y ≼ x
  min_f-le x y = ground (arith, le_refl x, lt-eq-not_le y x, le_total x y)

  le-min_f : (z x y : F) → z ≼ x → z ≼ y → z ≼ min_f x y
  le-min_f z x y h k = ground arith

  refill-capacity : (now : F) (b : TokenBucket F) → (refill now b).tokens ≼ N.of_ℤ b.capacity
  unfolding refill
  refill-capacity now b =
      min_f-le (N.of_ℤ b.capacity) (b.tokens ⊕ (now ⊖ b.last_refill) ⊗ N.of_ℤ b.rate)

  taken-IsLeft :
      (b : TokenBucket F)
      → N.lt b.tokens (of_ℕ 1) ≡ false
      → b.tokens ≼ N.of_ℤ b.capacity
      → IsLeft b.capacity (record b { tokens = b.tokens ⊖ of_ℕ 1 })
  taken-IsLeft b h k = (
    refl,
    sub_nonneg laws b.tokens (of_ℕ 1) (le_of_not_lt laws (of_ℕ 1) b.tokens h),
    sub_mono b.tokens (N.of_ℤ b.capacity) (of_ℕ 1) (of_ℕ 1) k (le_refl (of_ℕ 1)),
  )

  wait_for_token_lem :
      (later : List F) (b : TokenBucket F) (b' : TokenBucket F) (rest : List F)
      → b.tokens ≼ N.of_ℤ b.capacity
      → wait_for_token later b ≡ some (b', rest)
      → IsLeft b.capacity b'
  unfolding wait_for_token refill
  wait_for_token_lem [] b b' rest k e = elim (Bool-cases (N.lt b.tokens (of_ℕ 1))) [
    | inl h ↦ absurd (ground arith)
    | inr h ↦ ground (arith, taken-IsLeft b h k)
  ]
  wait_for_token_lem (now ∷ later) b b' rest k e = elim (Bool-cases (N.lt b.tokens (of_ℕ 1))) [
    | inl h ↦ wait_for_token_lem later (refill now b) b' rest (refill-capacity now b) (rw h at e)
    | inr h ↦ ground (arith, taken-IsLeft b h k)
  ]

  -- However long a call waits and whatever the clock reads, a call that got its token leaves the
  -- bucket with no negative number of tokens, and at most the capacity less one; the capacity stays.
  pub take_token_bounds :
      (now : F) (later : List F) (b b' : TokenBucket F) (rest : List F)
      → take_token now later b ≡ some (b', rest)
      → IsLeft b.capacity b'
  unfolding take_token refill
  take_token_bounds now later b b' rest e =
      wait_for_token_lem later (refill now b) b' rest (refill-capacity now b) e

  wait_for_token-ready :
      (later : List F) (b : TokenBucket F)
      → N.lt b.tokens (of_ℕ 1) ≡ false
      → wait_for_token later b ≡ some (record b { tokens = b.tokens ⊖ of_ℕ 1 }, later)
  unfolding wait_for_token
  wait_for_token-ready [] b h = rw h refl
  wait_for_token-ready (now ∷ later) b h = rw h refl

  -- With a token in the bucket, a capacity of at least one and a clock that did not go back, a call
  -- returns without a sleep and leaves the bucket within its bounds.
  pub take_token_now :
      (now : F) (later : List F) (b : TokenBucket F)
      → b.last_refill ≼ now
      → pos 0 ≤ℤ b.rate
      → pos 1 ≤ℤ b.capacity
      → of_ℕ 1 ≼ b.tokens
      → (b' : TokenBucket F) × (take_token now later b ≡ some (b', later)) × IsLeft b.capacity b'
  unfolding take_token refill wait_for_token
  take_token_now now later b clock rate capacity token =
      let filled = refill now b in
      let grown = (now ⊖ b.last_refill) ⊗ N.of_ℤ b.rate in
      let gain : of_ℕ 0 ≼ grown =
        mul_nonneg laws (now ⊖ b.last_refill) (N.of_ℤ b.rate)
          (sub_nonneg laws now b.last_refill clock) (of_ℤ_mono (pos 0) b.rate rate) in
      let enough : of_ℕ 1 ≼ filled.tokens =
        le-min_f (of_ℕ 1) (N.of_ℤ b.capacity) (b.tokens ⊕ grown)
          (of_ℤ_mono (pos 1) b.capacity capacity)
          (le_trans (of_ℕ 1) b.tokens (b.tokens ⊕ grown) token
            (le-add_right laws b.tokens grown gain)) in
      let ready : N.lt filled.tokens (of_ℕ 1) ≡ false =
        ground (arith, lt-eq-not_le filled.tokens (of_ℕ 1)) in
      (
        record filled { tokens = filled.tokens ⊖ of_ℕ 1 },
        wait_for_token-ready later filled ready,
        taken-IsLeft filled ready (refill-capacity now b),
      )

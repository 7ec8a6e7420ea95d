-- ===== src/Float/Laws.antt =====
-- What follows from the laws of rounded arithmetic: strict and weak order, and signs.
use kis_autotrader.Common.{ℕ, suc, ◌≤◌, ◌≡◌, false, arith}
use kis_autotrader.Common.Int.{pos}
use kis_autotrader.Float.{Float, IsRounded, of_ℕ, ◌⊕◌, ◌⊖◌, ◌⊗◌, ◌⊘◌, ◌≼◌, ◌≺◌, min_f}

module _ {F : Type 0} ⦃N : Float F⦄ (laws : IsRounded F) where
  open laws use {
    le_refl, le_trans, le_total, lt-eq-not_le, eq-le, of_ℤ_mono, zero-lt-one, add_mono, add_zero,
    mul_mono, mul_zero, div_mono, zero_div, div_self, sub_mono, sub_self,
  }

  pub not_le_of_lt : (x y : F) → x ≺ y → N.le y x ≡ false
  not_le_of_lt x y h = ground (arith, lt-eq-not_le x y)

  pub lt_of_not_le : (x y : F) → N.le y x ≡ false → x ≺ y
  lt_of_not_le x y h = ground (arith, lt-eq-not_le x y)

  pub le_of_not_lt : (x y : F) → N.lt y x ≡ false → x ≼ y
  le_of_not_lt x y h = ground (arith, lt-eq-not_le y x)

  pub le_of_lt : (x y : F) → x ≺ y → x ≼ y
  le_of_lt x y h = ground (arith, lt-eq-not_le x y, le_total x y)

  pub le_of_not_le : (x y : F) → N.le y x ≡ false → x ≼ y
  le_of_not_le x y h = ground (arith, le_total x y)

  pub lt_of_lt-le : (x y z : F) → x ≺ y → y ≼ z → x ≺ z
  lt_of_lt-le x y z h k = ground (arith, lt-eq-not_le x y, lt-eq-not_le x z, le_trans y z x)

  pub lt_of_le-lt : (x y z : F) → x ≼ y → y ≺ z → x ≺ z
  lt_of_le-lt x y z h k = ground (arith, lt-eq-not_le y z, lt-eq-not_le x z, le_trans z x y)

  pub of_ℕ_mono : (m n : ℕ) → m ≤ n → ◌≼◌ {F = F} (of_ℕ m) (of_ℕ n)
  of_ℕ_mono m n h = of_ℤ_mono (pos m) (pos n) (omega arith)

  pub of_ℕ_pos : (n : ℕ) → ◌≺◌ {F = F} (of_ℕ 0) (of_ℕ (suc n))
  of_ℕ_pos n =
      lt_of_lt-le (of_ℕ 0) (of_ℕ 1) (of_ℕ (suc n)) zero-lt-one (of_ℕ_mono 1 (suc n) (omega arith))

  -- A positive number is not equal to 0, so a division by it does not raise.
  pub eq_zero_of_pos : (x : F) → of_ℕ 0 ≺ x → N.eq x (of_ℕ 0) ≡ false
  eq_zero_of_pos x h = ground (arith, eq-le x (of_ℕ 0), not_le_of_lt (of_ℕ 0) x h)

  pub add_nonneg : (a b : F) → of_ℕ 0 ≼ a → of_ℕ 0 ≼ b → of_ℕ 0 ≼ a ⊕ b
  add_nonneg a b h k =
      le_trans (of_ℕ 0) (of_ℕ 0 ⊕ of_ℕ 0) (a ⊕ b) (add_zero (of_ℕ 0)).1
        (add_mono (of_ℕ 0) a (of_ℕ 0) b h k)

  pub le-add_right : (a b : F) → of_ℕ 0 ≼ b → a ≼ a ⊕ b
  le-add_right a b h =
      le_trans a (a ⊕ of_ℕ 0) (a ⊕ b) (add_zero a).1 (add_mono a a (of_ℕ 0) b (le_refl a) h)

  pub mul_nonneg : (a b : F) → of_ℕ 0 ≼ a → of_ℕ 0 ≼ b → of_ℕ 0 ≼ a ⊗ b
  mul_nonneg a b h k =
      le_trans (of_ℕ 0) (a ⊗ of_ℕ 0) (a ⊗ b) (mul_zero a).1
        (mul_mono a a (of_ℕ 0) b h (le_refl a) (le_refl (of_ℕ 0)) k)

  pub div_nonneg : (a c : F) → of_ℕ 0 ≼ a → of_ℕ 0 ≺ c → of_ℕ 0 ≼ a ⊘ c
  div_nonneg a c h p =
      le_trans (of_ℕ 0) (of_ℕ 0 ⊘ c) (a ⊘ c) (zero_div c p).1 (div_mono (of_ℕ 0) a c p h)

  -- A share of a whole is at most 1.
  pub div-le_one : (a c : F) → of_ℕ 0 ≺ c → a ≼ c → a ⊘ c ≼ of_ℕ 1
  div-le_one a c p h = le_trans (a ⊘ c) (c ⊘ c) (of_ℕ 1) (div_mono a c c p h) (div_self c p)

  pub sub_nonneg : (a b : F) → b ≼ a → of_ℕ 0 ≼ a ⊖ b
  sub_nonneg a b h =
      le_trans (of_ℕ 0) (b ⊖ b) (a ⊖ b) (sub_self b).1 (sub_mono b a b b h (le_refl b))

  pub min_bounds : (x : F) → of_ℕ 0 ≼ x → (of_ℕ 0 ≼ min_f x (of_ℕ 1)) × (min_f x (of_ℕ 1) ≼ of_ℕ 1)
  min_bounds x h =
      ground (arith, of_ℕ_mono 0 1 (omega arith), le_refl (of_ℕ 1), le_of_not_lt x (of_ℕ 1))

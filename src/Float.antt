-- ===== src/Float.antt =====
-- Python's float, which the program uses and does not implement: its operations as an interface,
-- and the laws of rounded arithmetic on numbers (no NaN, no overflow) that proofs may assume.

pub mod Milli
pub mod Laws
use kis_autotrader.Common.{
  ℕ, suc, ◌≤◌, ◌<◌, ◌^◌, ◌≡◌, ◌⊎◌, Bool, true, false, not, ◌&&◌, if◌then◌else◌,
}
use kis_autotrader.Common.Int.{ℤ, pos, ◌≤ℤ◌}

pub record Float (F : Type 0) : Type 0 where
  pub of_ℤ : ℤ → F
  -- `int(x)`, which cuts towards 0
  pub to_int : F → ℤ
  pub add : F → F → F
  pub sub : F → F → F
  pub mul : F → F → F
  pub div : F → F → F
  pub neg : F → F
  pub le : F → F → Bool
  pub lt : F → F → Bool
  pub eq : F → F → Bool

module _ {F : Type 0} ⦃N : Float F⦄ where
  infixl 65 ◌⊕◌ ◌⊖◌
  infixl 70 ◌⊗◌ ◌⊘◌
  infix 4 ◌≼◌ ◌≺◌
  abbrev pub of_ℕ : ℕ → F
  of_ℕ n = N.of_ℤ (pos n)

  abbrev pub ◌⊕◌ : F → F → F
  x ⊕ y = N.add x y

  abbrev pub ◌⊖◌ : F → F → F
  x ⊖ y = N.sub x y

  abbrev pub ◌⊗◌ : F → F → F
  x ⊗ y = N.mul x y

  abbrev pub ◌⊘◌ : F → F → F
  x ⊘ y = N.div x y

  -- `min(x, y)` and `max(x, y)`: Python keeps the first where the two are equal
  abbrev pub min_f : F → F → F
  min_f x y = if N.lt y x then y else x

  abbrev pub max_f : F → F → F
  max_f x y = if N.lt x y then y else x

  -- `abs(x)`
  abbrev pub abs_f : F → F
  abs_f x = if N.lt x (of_ℕ 0) then N.neg x else x

  abbrev pub ◌≼◌ : F → F → Type 0
  x ≼ y = N.le x y ≡ true

  abbrev pub ◌≺◌ : F → F → Type 0
  x ≺ y = N.lt x y ≡ true

-- Rounding is monotone, so each law of the exact numbers below holds of the rounded ones; the
-- results that are exact (x - x, x * 1, x / x, small integers) are stated as such.
pub record IsRounded (F : Type 0) ⦃N : Float F⦄ : Type 0 where
  pub le_refl : (x : F) → x ≼ x
  pub le_trans : (x y z : F) → x ≼ y → y ≼ z → x ≼ z
  pub le_total : (x y : F) → (x ≼ y) ⊎ (y ≼ x)
  pub lt-eq-not_le : (x y : F) → N.lt x y ≡ not (N.le y x)
  pub eq-le : (x y : F) → N.eq x y ≡ (N.le x y && N.le y x)
  pub of_ℤ_mono : (a b : ℤ) → a ≤ℤ b → N.of_ℤ a ≼ N.of_ℤ b
  pub zero-lt-one : ◌≺◌ {F = F} (of_ℕ 0) (of_ℕ 1)
  pub add_mono : (a b c d : F) → a ≼ b → c ≼ d → a ⊕ c ≼ b ⊕ d
  pub add_zero : (a : F) → (a ⊕ of_ℕ 0 ≼ a) × (a ≼ a ⊕ of_ℕ 0)
  pub add_one : (n : ℕ) → suc n < 2 ^ 53 → ◌≼◌ {F = F} (of_ℕ n ⊕ of_ℕ 1) (of_ℕ (suc n))
  pub sub_mono : (a b c d : F) → a ≼ b → c ≼ d → a ⊖ d ≼ b ⊖ c
  pub sub_self : (a : F) → (a ⊖ a ≼ of_ℕ 0) × (of_ℕ 0 ≼ a ⊖ a)
  pub mul_mono : (a b c d : F) → of_ℕ 0 ≼ a → a ≼ b → of_ℕ 0 ≼ c → c ≼ d → a ⊗ c ≼ b ⊗ d
  pub mul_zero : (a : F) → (a ⊗ of_ℕ 0 ≼ of_ℕ 0) × (of_ℕ 0 ≼ a ⊗ of_ℕ 0)
  pub mul_one : (a : F) → (a ⊗ of_ℕ 1 ≼ a) × (a ≼ a ⊗ of_ℕ 1)
  pub div_mono : (a b c : F) → of_ℕ 0 ≺ c → a ≼ b → a ⊘ c ≼ b ⊘ c
  pub zero_div : (c : F) → of_ℕ 0 ≺ c → (of_ℕ 0 ⊘ c ≼ of_ℕ 0) × (of_ℕ 0 ≼ of_ℕ 0 ⊘ c)
  pub div_self : (a : F) → of_ℕ 0 ≺ a → a ⊘ a ≼ of_ℕ 1
  pub one_mul : (a : F) → of_ℕ 0 ≼ a → of_ℕ 1 ⊗ a ≼ a
  pub sub_zero : (a : F) → a ⊖ of_ℕ 0 ≼ a
  pub square_nonneg : (a : F) → of_ℕ 0 ≼ a ⊗ a
  pub neg_pos : (a : F) → a ≺ of_ℕ 0 → of_ℕ 0 ≺ N.neg a
  pub neg_nonneg : (a : F) → a ≼ of_ℕ 0 → of_ℕ 0 ≼ N.neg a
  pub to_int_le : (x : F) → of_ℕ 0 ≼ x → (N.of_ℤ (N.to_int x) ≼ x) × (pos 0 ≤ℤ N.to_int x)

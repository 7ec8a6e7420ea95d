-- ===== src/Float/Milli.antt =====
-- The interface and its laws can be met: fixed-point numbers, an integer count of thousandths,
-- with products and quotients rounded down.
use native.Mathlib.Nat.{mul-le-mul, mul_comm, le-div_iff_mul-le, div-mul-le_self, mul-div_left}
use kis_autotrader.Common.{ℕ, zero, suc, ◌-◌, ◌*◌, ◌/◌, ◌≤◌, ◌≡◌, refl, true, ◌&&◌, arith}
use kis_autotrader.Common.Int.{ℤ, pos, negsuc, ◌+ℤ◌, ◌-ℤ◌, ◌*ℤ◌, ◌≤ℤ◌, ltb_ℤ, leb_ℤ}
use kis_autotrader.Float.{Float, IsRounded}

abbrev pub Milli : Type 0
Milli = ℤ

-- The quotient by a positive number, rounded down.
abbrev pub div_floor : ℤ → ℕ → ℤ
div_floor (pos n) d = pos (n / d)
div_floor (negsuc n) d = negsuc (n / d)

abbrev pub quotient : ℤ → ℤ → ℤ
unfolding ◌*ℤ◌
quotient a (pos d) = div_floor (a *ℤ pos 1000) d
quotient a (negsuc d) = div_floor (a *ℤ negsuc 999) (suc d)

-- Towards 0.
abbrev pub whole : ℤ → ℤ
unfolding ◌-ℤ◌
whole (pos n) = pos (n / 1000)
whole (negsuc n) = pos 0 -ℤ pos (suc n / 1000)

instance unfoldable pub milli_float : Float Milli
unfolding ◌*ℤ◌ ◌+ℤ◌ ◌-ℤ◌
milli_float = record {
  of_ℤ = λ a. a *ℤ pos 1000;
  to_int = whole;
  add = ◌+ℤ◌;
  sub = ◌-ℤ◌;
  mul = λ a b. div_floor (a *ℤ b) 1000;
  div = quotient;
  neg = λ a. pos 0 -ℤ a;
  le = leb_ℤ;
  lt = ltb_ℤ;
  eq = λ a b. leb_ℤ a b && leb_ℤ b a;
}

div-le-div : (a b c : ℕ) → a ≤ b → a / c ≤ b / c
div-le-div a b zero h = omega arith
div-le-div a b (suc c) h =
    (le-div_iff_mul-le (omega arith)).1 (omega (arith, div-mul-le_self a (suc c)))

div_floor_mono : (a b : ℤ) (c : ℕ) → a ≤ℤ b → div_floor a c ≤ℤ div_floor b c
div_floor_mono (pos a) (pos b) c h = omega (arith, div-le-div a b c (omega arith))
div_floor_mono (pos a) (negsuc b) c h = absurd (omega arith)
div_floor_mono (negsuc a) (pos b) c h = omega arith
div_floor_mono (negsuc a) (negsuc b) c h = omega (arith, div-le-div b a c (omega arith))

le_of_leb : (a b : ℤ) → leb_ℤ a b ≡ true → a ≤ℤ b
le_of_leb a b h = ground arith

leb_of_le : (a b : ℤ) → a ≤ℤ b → leb_ℤ a b ≡ true
leb_of_le a b h = ground arith

mul_pos : (a b : ℕ) → pos a *ℤ pos b ≡ pos (a * b)
unfolding ◌*ℤ◌
mul_pos a b = ground arith

mul_negsuc : (a b : ℕ) → negsuc a *ℤ pos (suc b) ≡ negsuc (suc a * suc b - 1)
unfolding ◌*ℤ◌
mul_negsuc a b = grind arith

square_nonneg : (a : ℤ) → leb_ℤ (pos 0) (div_floor (a *ℤ a) 1000) ≡ true
unfolding ◌*ℤ◌
square_nonneg (pos a) = ground arith
square_nonneg (negsuc a) = ground arith

scale_mono : (a b : ℤ) → a ≤ℤ b → a *ℤ pos 1000 ≤ℤ b *ℤ pos 1000
unfolding ◌*ℤ◌
scale_mono a b h = ground arith

product_mono :
    (a b c d : ℤ)
    → pos 0 ≤ℤ a
    → a ≤ℤ b
    → pos 0 ≤ℤ c
    → c ≤ℤ d
    → div_floor (a *ℤ c) 1000 ≤ℤ div_floor (b *ℤ d) 1000
product_mono (pos a) (pos b) (pos c) (pos d) ha h hc k =
    let ab : a ≤ b = omega arith in
    let cd : c ≤ d = omega arith in
    let products : a * c ≤ b * d = mul-le-mul ab cd in
    rw (mul_pos a c, mul_pos b d) (div_floor_mono (pos (a * c)) (pos (b * d)) 1000 (omega arith))
product_mono (pos a) (pos b) (pos c) (negsuc d) ha h hc k = absurd (omega arith)
product_mono (pos a) (pos b) (negsuc c) d ha h hc k = absurd (omega arith)
product_mono (pos a) (negsuc b) c d ha h hc k = absurd (omega arith)
product_mono (negsuc a) b c d ha h hc k = absurd (omega arith)

quotient_mono : (a b c : ℤ) → ltb_ℤ (pos 0) c ≡ true → a ≤ℤ b → quotient a c ≤ℤ quotient b c
unfolding ◌*ℤ◌
quotient_mono a b (pos c) p h = div_floor_mono (a *ℤ pos 1000) (b *ℤ pos 1000) c (scale_mono a b h)
quotient_mono a b (negsuc c) p h = ground arith

quotient_self : (a : ℤ) → ltb_ℤ (pos 0) a ≡ true → quotient a a ≤ℤ pos 1000
unfolding ◌*ℤ◌
quotient_self (pos zero) p = ground arith
quotient_self (pos (suc a)) p =
    let exact : (suc a * 1000) / suc a ≡ 1000 =
      rw (mul_comm (suc a) 1000) (mul-div_left 1000 {n = suc a} (omega arith)) in
    rw (mul_pos (suc a) 1000) (omega arith)
quotient_self (negsuc a) p = ground arith

-- Fixed-point numbers obey the laws.
pub Milli-IsRounded : IsRounded Milli
unfolding milli_float ◌*ℤ◌ ◌+ℤ◌ ◌-ℤ◌
Milli-IsRounded = record {
  le_refl = λ x. ground arith;
  le_trans = λ x y z h k. ground arith;
  le_total = λ x y. ground arith;
  lt-eq-not_le = λ x y. ground arith;
  eq-le = λ x y. refl;
  of_ℤ_mono = λ a b h. ground arith;
  zero-lt-one = refl;
  add_mono = λ a b c d h k. ground arith;
  add_zero = λ a. ground arith;
  add_one = λ n h. ground arith;
  sub_mono = λ a b c d h k. ground arith;
  sub_self = λ a. ground arith;
  mul_mono = λ a b c d h k l m. leb_of_le (div_floor (a *ℤ c) 1000) (div_floor (b *ℤ d) 1000) (
      product_mono a b c d (le_of_leb (pos 0) a h) (le_of_leb a b k) (le_of_leb (pos 0) c l)
        (le_of_leb c d m));
  mul_zero = λ a. ground arith;
  mul_one = λ a. ground arith;
  div_mono = λ a b c p h.
      leb_of_le (quotient a c) (quotient b c) (quotient_mono a b c p (le_of_leb a b h));
  zero_div = λ c h. ground arith;
  div_self = λ a p. leb_of_le (quotient a a) (pos 1000) (quotient_self a p);
  one_mul = λ a h. ground arith;
  sub_zero = λ a. ground arith;
  square_nonneg = square_nonneg;
  neg_pos = λ a h. ground arith;
  neg_nonneg = λ a h. ground arith;
  to_int_le = λ x h. ground arith;
}

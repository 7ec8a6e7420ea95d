-- ===== src/Backtest/Report/Meets.antt =====
-- Results that are no exception, and divisions that raise none.
use kis_autotrader.Common.{◌≡◌, refl, Bool, true, false, if◌then◌else◌}
use kis_autotrader.Float.{Float, IsRounded, of_ℕ, ◌≺◌}
use kis_autotrader.Float.Laws.{eq_zero_of_pos}
use kis_autotrader.Python.{Result, ok, err, divide, ◌>>=◌}

-- No exception, and a value with the property.
abbrev pub Meets : {A : Type 0} → (A → Type 0) → Result A → Type 0
Meets P (ok x) = P x
Meets P (err e) = ⊥

pub >>=-Meets :
    {A B : Type 0}
    → (P : A → Type 0) (Q : B → Type 0) (r : Result A) (f : A → Result B) → Meets P r
    → ((x : A) → P x → Meets Q (f x))
    → Meets Q (r >>= f)
>>=-Meets P Q (ok x) f h k = k x h
>>=-Meets P Q (err e) f h k = absurd h

pub Meets-if :
    {A : Type 0}
    → (P : A → Type 0) (b : Bool) (x y : Result A) → (b ≡ true → Meets P x)
    → (b ≡ false → Meets P y)
    → Meets P (if b then x else y)
Meets-if P true x y h k = h refl
Meets-if P false x y h k = k refl

pub Meets-ok :
    {A : Type 0} → (P : A → Type 0) (r : Result A) → Meets P r → (x : A) × (r ≡ ok x) × P x
Meets-ok P (ok x) h = (x, refl, h)
Meets-ok P (err e) h = absurd h

abbrev pub Any : {A : Type 0} → A → Type 0
Any x = Unit

module _ {F : Type 0} ⦃N : Float F⦄ (laws : IsRounded F) where
  pub divide-Any : (x y : F) → N.eq y (of_ℕ 0) ≡ false → Meets Any (divide x y)
  divide-Any x y e = rw e tt

  pub divide_pos-Any : (x y : F) → of_ℕ 0 ≺ y → Meets Any (divide x y)
  divide_pos-Any x y p = divide-Any x y (eq_zero_of_pos laws y p)

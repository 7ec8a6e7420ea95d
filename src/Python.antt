-- ===== src/Python.antt =====
-- What the code takes from Python itself: exceptions as values (src/utils/exceptions.py names the
-- program's own), `or`, and a dict that carries mixed values.
use Prim.Native.String.{String}
use text.Mathlib.Text.{◌==◌ as str_eq}
use kis_autotrader.Common.{Bool, true, false, Option, none, some, List, [], ◌∷◌, if◌then◌else◌}
use kis_autotrader.Common.Int.{ℤ}
use kis_autotrader.Float.{Float, of_ℕ, ◌⊘◌}

pub data Error : Type 0 where
  value_error key_error index_error zero_division : Error
  risk_limit rate_limit_exceeded daily_limit_exceeded : Error
  strategy_error web_socket web_socket_reconnect_failed : Error
  -- any other exception, such as a lost connection
  other : Error

-- A call that returns a value or raises.
pub data Result {ℓ} (A : Type ℓ) : Type ℓ where
  ok : A → Result A
  err : (raised : Error) → Result A

module _ {A B : Type 0} where
  infixl 5 ◌>>=◌
  -- A raised exception skips the code behind the call.
  abbrev pub ◌>>=◌ : (call : Result A) (rest : A → Result B) → Result B
  err raised >>= rest = err raised
  ok value >>= rest = rest value

-- `x if x is not None else d`
abbrev pub or_default {ℓ} : {A : Type ℓ} → Option A → A → A
or_default none d = d
or_default (some x) d = x

abbrev pub is_some {ℓ} : {A : Type ℓ} → Option A → Bool
is_some none = false
is_some (some x) = true

-- `s or d` on an optional text: the empty text is false.
abbrev pub str_or : Option String → String → String
str_or none d = d
str_or (some s) d = if str_eq s "" then d else s

-- A value in a dict of mixed values.
pub data Value (F : Type 0) : Type 0 where
  nothing : Value F
  int : ℤ → Value F
  float : F → Value F
  bool : Bool → Value F
  str : String → Value F

-- `d.get(k)` on a dict literal: a missing key reads as None.
abbrev pub get : {F : Type 0} → List (String × Value F) → String → Value F
get [] k = nothing
get ((j, v) ∷ d) k = if str_eq j k then v else get d k

-- `x / y`
abbrev pub divide : {F : Type 0} ⦃N : Float F⦄ → F → F → Result F
divide ⦃N⦄ x y = if N.eq y (of_ℕ 0) then err zero_division else ok (x ⊘ y)

-- ===== src/Screening/Filter.antt =====
-- src/strategy/screener.py, class ScreeningFilter. Python's tests of texts are parameters: whether a
-- text has only digits, its upper case, and whether it contains another. The list of blocked codes is
-- read from a file.
pub mod Passed
use Prim.Native.String.{String}
use text.Mathlib.Text.{◌==◌ as str_eq}
use kis_autotrader.Common.{
  Bool, true, false, not, ◌&&◌, ◌||◌, Option, none, some, List, [], ◌∷◌, if◌then◌else◌,
}
use kis_autotrader.Common.Int.{ℤ, ltb_ℤ}
use kis_autotrader.Float.{Float}
use kis_autotrader.Screening.{MergedCandidate, ScreeningConfig}

pub record TextTests : Type 0 where
  pub isdigit : String → Bool
  pub upper : String → String
  pub contains : (part text : String) → Bool

abbrev pub member : String → List String → Bool
member x [] = false
member x (y ∷ ys) = str_eq y x || member x ys

abbrev pub any_in : (String → Bool) → List String → Bool
any_in p [] = false
any_in p (x ∷ xs) = p x || any_in p xs

-- `_ETF_BRAND_KEYWORDS`
abbrev pub etf_brand_keywords : List String
etf_brand_keywords =
    "KODEX" ∷ "TIGER" ∷ "KBSTAR" ∷ "ARIRANG" ∷ "SOL " ∷ "ACE " ∷ "HANARO" ∷ "ETN" ∷ "레버리지" ∷ "인버스"
    ∷ "2X" ∷ "곱버스" ∷ "RISE " ∷ "PLUS " ∷ "KOSEF" ∷ "KINDEX" ∷ "TIMEFOLIO" ∷ "히어로즈" ∷ "마이다스" ∷ "ETF"
    ∷ "채권혼합" ∷ "혼합형" ∷ []

-- `_US_ETF_SYMBOLS`
abbrev pub us_etf_symbols : List String
us_etf_symbols =
    "SPY" ∷ "QQQ" ∷ "IWM" ∷ "DIA" ∷ "VOO" ∷ "VTI" ∷ "VEA" ∷ "VWO" ∷ "EEM" ∷ "EFA" ∷ "TQQQ" ∷ "SQQQ"
    ∷ "SOXL" ∷ "SOXS" ∷ "TLT" ∷ "GLD" ∷ "SLV" ∷ "USO" ∷ "UVXY" ∷ "VXX" ∷ "ARKK" ∷ "XLF" ∷ "XLE"
    ∷ "XLK" ∷ "XLV" ∷ "SCHD" ∷ "VYM" ∷ "HYG" ∷ "LQD" ∷ "AGG" ∷ []

module _ (text : TextTests) (blocklist : List String) (is_overseas : Bool) where
  -- `_is_etf_etn`
  unfoldable pub is_etf_etn : (stock_code stock_name : String) → Bool
  is_etf_etn stock_code stock_name =
      if is_overseas
      then member (text.upper stock_code) us_etf_symbols
        || text.contains "ETF" (text.upper stock_name)
        || text.contains "ETN" (text.upper stock_name)
      else not (text.isdigit stock_code)
        || member stock_code blocklist
        || str_eq stock_name ""
        || str_eq stock_name stock_code
        || any_in (λ k. text.contains (text.upper k) (text.upper stock_name)) etf_brand_keywords

  module _ {F : Type 0} ⦃N : Float F⦄ (cfg : ScreeningConfig F) where
    abbrev pub cap_too_small : Option ℤ → Bool
    cap_too_small none = false
    cap_too_small (some cap) = ltb_ℤ cap cfg.min_market_cap

    abbrev pub price_fails : MergedCandidate F → Bool
    price_fails item =
        if is_overseas
        then N.lt item.current_price cfg.min_price_us
        else N.lt item.current_price cfg.min_price
          || N.lt cfg.max_price item.current_price
          || cap_too_small item.market_cap

    -- `_pass_filter`
    unfoldable pub pass_filter : MergedCandidate F → Bool
    pass_filter item =
        if is_etf_etn item.stock_code item.stock_name
        then false
        else if price_fails item
        then false
        else if N.lt item.change_rate cfg.change_rate_min
            || N.lt cfg.change_rate_max item.change_rate
        then false
        else not (ltb_ℤ item.volume cfg.min_volume)

    -- `apply`
    unfoldable pub apply : List (MergedCandidate F) → List String → List (MergedCandidate F)
    apply [] exclude_codes = []
    apply (item ∷ items) exclude_codes =
        let passed = apply items exclude_codes in
        if member item.stock_code exclude_codes
        then passed
        else if is_etf_etn item.stock_code item.stock_name
        then passed
        else if not (pass_filter item)
        then passed
        else item ∷ passed

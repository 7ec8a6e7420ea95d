-- ===== src/Screening.antt =====
-- src/strategy/screener.py: the candidates of a screening and its settings. Prices are numbers of
-- the market's currency; the item of the older path with one source has the same fields.
pub mod Filter
pub mod Merge
pub mod Score
use Prim.Native.String.{String}
use kis_autotrader.Common.{Option, List}
use kis_autotrader.Common.Int.{ℤ}

-- An item of a ranking, src/api/quote.py.
pub record RankItem (F : Type 0) : Type 0 where
  pub stock_code : String
  pub stock_name : String
  pub current_price : F
  pub change_rate : F
  pub volume : ℤ
  pub source_rank : ℤ
  pub market_cap : Option ℤ
  pub metric : Option F

pub record MergedCandidate (F : Type 0) : Type 0 where
  pub stock_code : String
  pub stock_name : String
  pub current_price : F
  pub change_rate : F
  pub volume : ℤ
  pub market_cap : Option ℤ
  pub ranks : List (String × ℤ)
  pub metrics : List (String × F)

pub record ScreeningConfig (F : Type 0) : Type 0 where
  pub top_n : ℤ
  pub min_price : F
  pub min_price_us : F
  pub max_price : F
  pub min_market_cap : ℤ
  pub change_rate_min : F
  pub change_rate_max : F
  pub min_volume : ℤ
  pub min_score : F
  pub weight_volume_rank : F
  pub weight_change_rate : F
  pub weight_strategy : F
  pub weight_volume_power : F
  pub weight_quote_balance : F
  pub weight_flow : F

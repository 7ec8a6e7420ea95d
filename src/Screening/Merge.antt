-- ===== src/Screening/Merge.antt =====
-- src/strategy/screener.py, `StockScreener.merge_rankings`. The dict of the candidates keeps the order
-- in which their codes come.
pub mod Union
use Prim.Native.String.{String}
use text.Mathlib.Text.{◌==◌ as str_eq}
use kis_autotrader.Common.{
  Bool, true, false, ◌&&◌, Option, none, some, List, [], ◌∷◌, map, if◌then◌else◌,
}
use kis_autotrader.Common.Dict.{lookup, put}
use kis_autotrader.Common.Int.{ℤ}
use kis_autotrader.Float.{Float, of_ℕ}
use kis_autotrader.Python.{is_some}
use kis_autotrader.Screening.{RankItem, MergedCandidate}

module _ {F : Type 0} ⦃N : Float F⦄ (source : String) where
  -- The first item of a code
  abbrev pub first_of : RankItem F → MergedCandidate F
  first_of it = record {
    stock_code = it.stock_code;
    stock_name = it.stock_name;
    current_price = it.current_price;
    change_rate = it.change_rate;
    volume = it.volume;
    market_cap = if str_eq source "volume" then it.market_cap else none;
    ranks = (source, it.source_rank) ∷ [];
    metrics = elim it.metric [ none ↦ [] | some m ↦ (source, m) ∷ [] ];
  }

  -- A later item fills in what is missing.
  abbrev pub filled_by : RankItem F → MergedCandidate F → MergedCandidate F
  filled_by it c = record c {
    ranks = put source it.source_rank c.ranks;
    metrics = elim it.metric [ none ↦ c.metrics | some m ↦ put source m c.metrics ];
    market_cap =
        if str_eq source "volume" && is_some it.market_cap then it.market_cap else c.market_cap;
    stock_name = if str_eq c.stock_name "" then it.stock_name else c.stock_name;
    current_price = if N.eq c.current_price (of_ℕ 0) then it.current_price else c.current_price;
  }

  abbrev pub merged_with : RankItem F → Option (MergedCandidate F) → MergedCandidate F
  merged_with it none = first_of it
  merged_with it (some c) = filled_by it c

  unfoldable pub merge_items :
      List (RankItem F) → List (String × MergedCandidate F) → List (String × MergedCandidate F)
  merge_items [] merged = merged
  merge_items (it ∷ items) merged =
      merge_items items (put it.stock_code (merged_with it (lookup it.stock_code merged)) merged)

abbrev pub merge_sources :
    {F : Type 0} ⦃N : Float F⦄
    → List (String × List (RankItem F))
    → List (String × MergedCandidate F)
    → List (String × MergedCandidate F)
merge_sources [] merged = merged
merge_sources ((source, items) ∷ sources) merged =
    merge_sources sources (merge_items source items merged)

abbrev pub values : {A : Type 0} → List (String × A) → List A
values [] = []
values ((k, v) ∷ d) = v ∷ values d

-- `merge_rankings`
unfoldable pub merge_rankings :
    {F : Type 0} ⦃N : Float F⦄ → List (String × List (RankItem F)) → List (MergedCandidate F)
merge_rankings sources = values (merge_sources sources [])

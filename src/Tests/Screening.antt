-- ===== src/Tests/Screening.antt =====
-- src/strategy/screener.py: two sources with a stock in common.
use Prim.Native.String.{String}
use kis_autotrader.Common.{◌≡◌, Bool, some, none, List, [], ◌∷◌, keep, count, IsSortedBy}
use kis_autotrader.Common.Dict.{lookup}
use kis_autotrader.Common.Dict.Keys.{HasUniqueKeys}
use kis_autotrader.Common.Int.{pos, negsuc, leb_ℤ}
use kis_autotrader.Float.Milli.{Milli, milli_float, Milli-IsRounded}
use kis_autotrader.Python.{is_some}
use kis_autotrader.Screening.{RankItem, MergedCandidate, ScreeningConfig}
use text.Mathlib.Text.{◌==◌ as str_eq}
use kis_autotrader.Common.{In, inl, refl, false, true}
use kis_autotrader.Common.Int.{◌*ℤ◌}
use kis_autotrader.Screening.Filter.{TextTests, member, is_etf_etn, pass_filter, apply}
use kis_autotrader.Screening.Filter.Passed.{IsListed, apply-IsListed}
use kis_autotrader.Screening.Merge.{merge_rankings}
use kis_autotrader.Screening.Merge.Union.{keyed, mentioned, merge_rankings-HasUniqueKeys}
use kis_autotrader.Screening.Score.{ScoredCandidate, score_merged, rank_candidates}
use kis_autotrader.Screening.Score.Ranked.{Outranks, rank_candidates-keep}
use kis_autotrader.Tests.Risk.{buy_signal}

abbrev config : ScreeningConfig Milli
config = record {
  top_n = pos 20;
  min_price = pos 1000000;
  min_price_us = pos 1000;
  max_price = pos 500000000;
  min_market_cap = pos 100000000;
  change_rate_min = negsuc 4999;
  change_rate_max = pos 15000;
  min_volume = pos 10000;
  min_score = pos 300;
  weight_volume_rank = pos 300;
  weight_change_rate = pos 300;
  weight_strategy = pos 400;
  weight_volume_power = pos 0;
  weight_quote_balance = pos 0;
  weight_flow = pos 0;
}

abbrev samsung : RankItem Milli
samsung = record {
  stock_code = "005930";
  stock_name = "삼성전자";
  current_price = pos 70000000;
  change_rate = pos 2000;
  volume = pos 9000000;
  source_rank = pos 1;
  market_cap = some (pos 400000000);
  metric = none;
}

abbrev hynix : RankItem Milli
hynix = record samsung {
  stock_code = "000660";
  stock_name = "SK하이닉스";
  source_rank = pos 2;
  metric = some (pos 120000);
}

abbrev sources : List (String × List (RankItem Milli))
sources = ("volume", samsung ∷ hynix ∷ []) ∷ ("volume_power", hynix ∷ []) ∷ []

merge_rankings-HasUniqueKeys_example :
    let d = keyed (merge_rankings sources) in
    HasUniqueKeys d × ((code : String) → is_some (lookup code d) ≡ mentioned code sources)
merge_rankings-HasUniqueKeys_example = merge_rankings-HasUniqueKeys sources

abbrev candidate : MergedCandidate Milli
candidate = record {
  stock_code = "005930";
  stock_name = "삼성전자";
  current_price = pos 70000000;
  change_rate = pos 2000;
  volume = pos 9000000;
  market_cap = none;
  ranks = ("volume", pos 1) ∷ [];
  metrics = [];
}

abbrev scored : ScoredCandidate Milli
scored = score_merged config (λ x. x) candidate buy_signal (pos 0)

abbrev both : List (ScoredCandidate Milli)
both = record scored { total_score = pos 400 } ∷ scored ∷ []

rank_candidates-keep_example :
    IsSortedBy (Outranks config) (rank_candidates config both)
    × ((p : ScoredCandidate Milli → Bool)
        → count p (rank_candidates config both)
          ≡ count p (keep (λ c. leb_ℤ (pos 300) c.total_score) both))
unfolding milli_float
rank_candidates-keep_example = rank_candidates-keep config Milli-IsRounded both

abbrev tests : TextTests
tests = record { isdigit = λ s. true; upper = λ s. s; contains = λ part s. str_eq part s }

apply-IsListed_example :
    In candidate (candidate ∷ [])
    × (member candidate.stock_code ("000660" ∷ []) ≡ false)
    × IsListed tests [] false config candidate
unfolding apply pass_filter is_etf_etn milli_float ◌*ℤ◌
apply-IsListed_example =
    apply-IsListed tests [] false config (candidate ∷ []) ("000660" ∷ []) candidate (inl refl)

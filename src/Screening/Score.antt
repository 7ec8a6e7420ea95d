-- ===== src/Screening/Score.antt =====
-- src/strategy/screener.py: the scores of a candidate and the ranking of the scored ones. `round4` is
-- Python's rounding to four places, a parameter.
pub mod Ranked
use Prim.Native.String.{String}
use kis_autotrader.Common.{
  Bool, true, false, ◌||◌, Option, none, some, List, [], ◌∷◌, keep, if◌then◌else◌,
}
use kis_autotrader.Common.Dict.{lookup}
use kis_autotrader.Common.Int.{ℤ, pos, ◌-ℤ◌, ltb_ℤ}
use kis_autotrader.Float.{Float, of_ℕ, ◌⊕◌, ◌⊖◌, ◌⊗◌, ◌⊘◌, max_f}
use kis_autotrader.Strategy.{SignalType, Signal}
use kis_autotrader.Screening.{MergedCandidate, ScreeningConfig}

pub record ScoredCandidate (F : Type 0) : Type 0 where
  pub stock_code : String
  pub stock_name : String
  pub volume_rank_score : F
  pub change_rate_score : F
  pub strategy_score : F
  pub total_score : F
  pub signal : Signal F
  pub volume : ℤ
  pub change_rate : F
  pub current_price : F
  pub volume_power_score : F
  pub quote_balance_score : F
  pub flow_score : F

module _ {F : Type 0} ⦃N : Float F⦄ where
  -- `_rank_decay`
  abbrev pub rank_decay : Option ℤ → ℤ → F
  unfolding ◌-ℤ◌
  rank_decay none top_n = of_ℕ 0
  rank_decay (some rank) top_n =
      if ltb_ℤ rank (pos 1) || ltb_ℤ top_n (pos 1)
      then of_ℕ 0
      else max_f (of_ℕ 0) (of_ℕ 1 ⊖ (N.of_ℤ (rank -ℤ pos 1) ⊘ N.of_ℤ top_n))

  -- `_score_change_rate`
  abbrev pub score_change_rate : F → F
  score_change_rate rate =
      if N.le rate (of_ℕ 0)
      then of_ℕ 0
      else if N.le rate (of_ℕ 10)
      then rate ⊘ of_ℕ 10
      else if N.le rate (of_ℕ 15)
      then of_ℕ 1 ⊖ ((rate ⊖ of_ℕ 10) ⊗ (of_ℕ 6 ⊘ of_ℕ 100))
      else of_ℕ 1 ⊘ of_ℕ 2

  abbrev pub buy_confidence : Signal F → F
  buy_confidence signal = elim signal.signal_type [
    | SignalType.buy ↦ signal.confidence
    | SignalType.sell ↦ of_ℕ 0
    | SignalType.hold ↦ of_ℕ 0
  ]

  module _ (cfg : ScreeningConfig F) where
    abbrev pub axis : String → MergedCandidate F → F
    axis source c = rank_decay (lookup source c.ranks) cfg.top_n

    -- `prelim_score`
    abbrev pub prelim_score : MergedCandidate F → F
    prelim_score c =
        (((cfg.weight_volume_rank ⊗ axis "volume" c)
            ⊕ (cfg.weight_change_rate ⊗ score_change_rate c.change_rate))
          ⊕ (cfg.weight_volume_power ⊗ axis "volume_power" c))
        ⊕ (cfg.weight_quote_balance ⊗ axis "quote_balance" c)

    -- `score_merged`
    unfoldable pub score_merged : (F → F) → MergedCandidate F → Signal F → F → ScoredCandidate F
    score_merged round4 c signal flow =
        let total =
          (prelim_score c ⊕ (cfg.weight_strategy ⊗ buy_confidence signal))
          ⊕ (cfg.weight_flow ⊗ flow) in
        record {
          stock_code = c.stock_code;
          stock_name = c.stock_name;
          volume_rank_score = round4 (axis "volume" c);
          change_rate_score = round4 (score_change_rate c.change_rate);
          strategy_score = round4 (buy_confidence signal);
          total_score = round4 total;
          signal = signal;
          volume = c.volume;
          change_rate = c.change_rate;
          current_price = c.current_price;
          volume_power_score = round4 (axis "volume_power" c);
          quote_balance_score = round4 (axis "quote_balance" c);
          flow_score = round4 flow;
        }

    -- `passed.sort(key=..., reverse=True)`, which keeps the order of equal scores
    abbrev pub insert_by_score :
        ScoredCandidate F → List (ScoredCandidate F) → List (ScoredCandidate F)
    insert_by_score x [] = x ∷ []
    insert_by_score x (y ∷ ys) =
        let later = insert_by_score x ys in
        if N.le y.total_score x.total_score then x ∷ y ∷ ys else y ∷ later

    abbrev pub sort_by_score : List (ScoredCandidate F) → List (ScoredCandidate F)
    sort_by_score [] = []
    sort_by_score (x ∷ xs) = insert_by_score x (sort_by_score xs)

    -- `rank_candidates`
    unfoldable pub rank_candidates : List (ScoredCandidate F) → List (ScoredCandidate F)
    rank_candidates candidates =
        sort_by_score (keep (λ c. N.le cfg.min_score c.total_score) candidates)

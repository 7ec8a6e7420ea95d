-- ===== src/Ensemble.antt =====
-- src/strategy/ensemble.py, EnsembleStrategy: the votes. A sub-strategy is what the ensemble sees of
-- it; the texts of reasons and the meta data of votes, which are only logged, are left out.
pub mod Confidence
pub mod Total
pub mod Winners
use Prim.Native.String.{String}
use text.Mathlib.Text.{◌==◌ as str_eq}
use kis_autotrader.Common.{
  ℕ, ◌*◌, Bool, true, false, not, ◌&&◌, ◌||◌, Option, none, some, List, [], ◌∷◌, map, ltb, leb,
  ◌==◌, if◌then◌else◌, length, keep,
}
use kis_autotrader.Float.{Float, of_ℕ, ◌⊕◌, ◌⊗◌, ◌⊘◌, min_f}
use kis_autotrader.Python.{Result, ok, err, value_error, ◌>>=◌, divide, or_default}
use kis_autotrader.Strategy.{SignalType, Signal, mk_signal}

pub record SubStrategy (F D : Type 0) : Type 0 where
  pub name : String
  pub is_trend_following : Bool
  pub analyze : D → Signal F

pub record Ensemble (F D : Type 0) : Type 0 where
  pub strategies : List (SubStrategy F D)
  pub method : String
  pub strategy_weights : List (String × F)
  pub solo_buy_min_confidence : F
  pub trend_filter_enabled : Bool

-- `EnsembleStrategy.__init__`
unfoldable pub init :
    {F D : Type 0}
    → List (SubStrategy F D)
    → String
    → List (String × F)
    → F
    → Bool
    → Result (Ensemble F D)
init strategies method weights solo trend =
    if ltb (length strategies) 2
    then err value_error
    else if not
        (str_eq method "majority" || str_eq method "weighted" || str_eq method "performance")
    then err value_error
    else ok (record {
      strategies = strategies;
      method = method;
      strategy_weights = weights;
      solo_buy_min_confidence = solo;
      trend_filter_enabled = trend;
    })

abbrev pub update_weights : {F D : Type 0} → List (String × F) → Ensemble F D → Ensemble F D
update_weights weights e = record e { strategy_weights = weights }

-- `dict.get`
abbrev pub weight_of : {F : Type 0} → String → List (String × F) → Option F
weight_of k [] = none
weight_of k ((j, w) ∷ d) = if str_eq j k then some w else weight_of k d

abbrev pub is_type : SignalType → SignalType → Bool
is_type SignalType.buy SignalType.buy = true
is_type SignalType.sell SignalType.sell = true
is_type SignalType.hold SignalType.hold = true
is_type _ _ = false

module _ {F : Type 0} where
  -- The signals of one type, in order.
  abbrev pub votes : SignalType → List (Signal F) → List (Signal F)
  votes t signals = keep (λ s. is_type t s.signal_type) signals

  -- A trend-following strategy is among those that say BUY.
  abbrev pub trend_backs : {D : Type 0} → List (SubStrategy F D) → List (Signal F) → Bool
  trend_backs [] signals = false
  trend_backs (s ∷ rest) [] = false
  trend_backs (s ∷ rest) (sig ∷ signals) =
      (is_type SignalType.buy sig.signal_type && s.is_trend_following) || trend_backs rest signals

module _ {F : Type 0} ⦃N : Float F⦄ where
  -- `sum(s.confidence for s in signals)`, from the left
  abbrev pub sum_from : F → List (Signal F) → F
  sum_from acc [] = acc
  sum_from acc (s ∷ signals) = sum_from (acc ⊕ s.confidence) signals

  abbrev pub weight : List (Signal F) → F
  weight = sum_from (of_ℕ 0)

  -- `Signal(signal_type=t, confidence=c)`
  abbrev pub verdict : SignalType → F → Result (Signal F)
  verdict t c = mk_signal t c none none

  abbrev pub hold_signal : Result (Signal F)
  hold_signal = verdict SignalType.hold (of_ℕ 0)

  unfoldable pub majority_vote : List (Signal F) → Result (Signal F)
  majority_vote signals =
      let non_hold = keep (λ s. not (is_type SignalType.hold s.signal_type)) signals in
      let buys = votes SignalType.buy non_hold in
      let sells = votes SignalType.sell non_hold in
      if length non_hold == 0
      then hold_signal
      else if length buys == length sells
      then hold_signal
      else if ltb (length sells) (length buys)
      then divide (weight buys) (of_ℕ (length buys)) >>= verdict SignalType.buy
      else divide (weight sells) (of_ℕ (length sells)) >>= verdict SignalType.sell

  -- `min(base * opp, 1.0)` for `base = W / n_win`, `opp = W / (W + L)`
  abbrev pub strength : F → F → ℕ → Result F
  strength w l n = do
    base ← divide w (of_ℕ n)
    opp ← divide w (w ⊕ l)
    ok (min_f (base ⊗ opp) (of_ℕ 1))

  -- A single BUY stands if its confidence reaches the threshold.
  abbrev pub solo_verdict : F → F → Result (Signal F)
  solo_verdict solo_min solo_conf =
      if N.le solo_min solo_conf then verdict SignalType.buy solo_conf else hold_signal

  -- From the winner on: the trend guard, the single vote, the verdict.
  abbrev pub decide : F → Bool → SignalType → F → F → ℕ → Result (Signal F)
  decide solo_min suppressed winner w l n_win =
      if suppressed && is_type SignalType.buy winner && ltb n_win 2
      then hold_signal
      else if ltb n_win 2
      then (if is_type SignalType.buy winner
          then strength w l n_win >>= solo_verdict solo_min
          else hold_signal)
      else strength w l n_win >>= verdict winner

  -- The literal 0.5.
  abbrev pub half : F
  half = of_ℕ 1 ⊘ of_ℕ 2

  abbrev pub capped : SignalType → F → Result (Signal F)
  capped winner confidence = verdict winner (min_f confidence (of_ℕ 1))

  abbrev pub share : SignalType → F → F → Result (Signal F)
  share winner w l =
      if N.lt (of_ℕ 0) (w ⊕ l) then divide w (w ⊕ l) >>= capped winner else capped winner (of_ℕ 0)

  module _ {D : Type 0} where
    -- `hold_count > len(signals) * 3 / 4` is exact on the floats: both are multiples of 1/4.
    unfoldable pub weighted_vote : Ensemble F D → List (Signal F) → Result (Signal F)
    weighted_vote e signals =
        let buys = votes SignalType.buy signals in
        let sells = votes SignalType.sell signals in
        let buy_w = weight buys in
        let sell_w = weight sells in
        let suppressed = e.trend_filter_enabled && not (trend_backs e.strategies signals) in
        if ltb (length signals * 3) (length (votes SignalType.hold signals) * 4)
        then hold_signal
        else if N.eq buy_w (of_ℕ 0) && N.eq sell_w (of_ℕ 0)
        then hold_signal
        else if N.eq buy_w sell_w
        then hold_signal
        else if N.lt sell_w buy_w
        then decide e.solo_buy_min_confidence suppressed SignalType.buy buy_w sell_w (length buys)
        else decide e.solo_buy_min_confidence suppressed SignalType.sell sell_w buy_w (length sells)

    -- The sum of the weighted confidences of one type, over `zip(strategies, signals)`.
    abbrev pub weighted_sum :
        List (String × F) → SignalType → F → List (SubStrategy F D) → List (Signal F) → F
    weighted_sum weights t acc [] signals = acc
    weighted_sum weights t acc (s ∷ rest) [] = acc
    weighted_sum weights t acc (s ∷ rest) (sig ∷ signals) =
        weighted_sum weights t
          (if is_type t sig.signal_type
            then acc ⊕ sig.confidence ⊗ or_default (weight_of s.name weights) half
            else acc)
          rest signals

    unfoldable pub performance_vote : Ensemble F D → List (Signal F) → Result (Signal F)
    performance_vote e signals =
        let buy_w = weighted_sum e.strategy_weights SignalType.buy (of_ℕ 0) e.strategies signals in
        let sell_w =
          weighted_sum e.strategy_weights SignalType.sell (of_ℕ 0) e.strategies signals in
        if N.eq buy_w (of_ℕ 0) && N.eq sell_w (of_ℕ 0)
        then hold_signal
        else if N.eq buy_w sell_w
        then hold_signal
        else if N.lt sell_w buy_w
        then share SignalType.buy buy_w sell_w
        else share SignalType.sell sell_w buy_w

    -- `EnsembleStrategy.analyze`
    unfoldable pub analyze : Ensemble F D → D → Result (Signal F)
    analyze e market_data =
        let signals = map (λ (s : SubStrategy F D). s.analyze market_data) e.strategies in
        if str_eq e.method "majority"
        then majority_vote signals
        else if str_eq e.method "performance"
        then performance_vote e signals
        else weighted_vote e signals

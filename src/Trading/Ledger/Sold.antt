-- ===== src/Trading/Ledger/Sold.antt =====
-- The orders that the processing of a held stock submits.
use Prim.Native.String.{String}
use text.Mathlib.Text.{◌==◌ as str_eq}
use kis_autotrader.Common.{◌≡◌, true, false, some, [], ◌∷◌, ◌++◌, ◌⊎◌}
use kis_autotrader.Common.Int.{ℤ}
use kis_autotrader.Float.{Float, of_ℕ}
use kis_autotrader.Strategy.{Signal}
use kis_autotrader.Risk.Exits.{should_stop_loss}
use kis_autotrader.Trading.{Side, Config, Clock, TradingEngine}
use kis_autotrader.Trading.Execution.{Answers}
use kis_autotrader.Trading.Held.{Holding, exit_reason}
use kis_autotrader.Trading.Ledger.Placed.{placed}

module _ {F : Type 0} ⦃N : Float F⦄ (cfg : Config F) (clock : Clock F) where
  module _ (a : Answers) where
    -- The orders are as they were, or one sell was added.
    abbrev pub SellsOnce : String → ℤ → TradingEngine F → TradingEngine F → Type 0
    SellsOnce code quantity t t' =
        (placed t'.events ≡ placed t.events)
        ⊎ (placed t'.events ≡ placed t.events ++ ((Side.sells, code, quantity) ∷ []))

  module _ (code : String) (price : F) (h : Holding F) (signal : Signal F)
      (t : TradingEngine F) where
    -- A sell of the whole holding, and why: the price is positive and an exit applies, which is the
    -- stop loss whenever that one applies.
    pub record IsExit (t' : TradingEngine F) : Type 0 where
      pub reason : String
      pub priced : N.le price (of_ℕ 0) ≡ false
      pub applies : exit_reason cfg clock code price h signal t ≡ some reason
      pub stops : should_stop_loss t.risk price h.avg_price ≡ true → reason ≡ "손절"
      pub order : placed t'.events ≡ placed t.events ++ ((Side.sells, code, h.quantity) ∷ [])

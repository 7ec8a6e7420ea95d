-- ===== src/Trading/Stock/Gates.antt =====
-- What `_process_stock` checks before it buys a stock that is not held.
use Prim.Native.String.{String}
use kis_autotrader.Common.{
  ◌≡◌, refl, Bool, true, false, Option, none, some, [], ◌∷◌, ◌++◌, inl, inr, ◌⊎◌, Option-cases,
  if◌then◌else◌,
}
use kis_autotrader.Common.Int.{ℤ, pos, leb_ℤ}
use kis_autotrader.Float.{Float}
use kis_autotrader.Python.{Result, ok, err, ◌>>=◌}
use kis_autotrader.Strategy.{SignalType, Signal}
use kis_autotrader.Risk.Gates.{calculate_position_size}
use kis_autotrader.Trading.{Side, outcome, Config, Clock, TradingEngine}
use kis_autotrader.Trading.Stock.{
  StockData, signal_case, min_ℤ, reject_reason, min_quantity, process_buy, process_stock,
}
use kis_autotrader.Trading.Calls.Stocks.{Yields}
use kis_autotrader.Trading.Ledger.Placed.{placed, placed_other, IsAllowed, execute_buy-placed}

-- A property of the value of a chain, with what the first call returned.
bind_Yields :
    {A B : Type 0}
    → (P : B → Type 0) (r : Result A) (k : A → Result B) → ((x : A) → r ≡ ok x → Yields P (k x))
    → Yields P (r >>= k)
bind_Yields P (ok x) k h = h x refl
bind_Yields P (err e) k h = tt

module _ {F : Type 0} ⦃N : Float F⦄ (cfg : Config F) (clock : Clock F) (d : StockData F)
    (code : String) (deposit : F) (t : TradingEngine F) where
  -- A new order, and the checks that it passed: the strategy's signal is a buy that no gate refuses,
  -- the quantity is the smaller of the sized and the buyable one, both positive, and no guard of
  -- `_execute_buy` holds it back, neither those on the stock and its price nor the one on a pending
  -- order of the stock nor the check of the database.
  pub record IsAdmitted (t' : TradingEngine F) : Type 0 where
    pub price : F
    pub signal : Signal F
    pub quantity : ℤ
    pub buyable : ℤ
    pub quoted : d.quote ≡ ok price
    pub signalled : d.signal ≡ ok signal
    pub buys : signal.signal_type ≡ SignalType.buy
    pub passes : reject_reason cfg clock code signal deposit t ≡ none
    pub sized : calculate_position_size t.risk deposit price (min_quantity cfg clock) ≡ ok quantity
    pub sized_pos : leb_ℤ quantity (pos 0) ≡ false
    pub can_buy : d.buyable ≡ some buyable
    pub buyable_pos : leb_ℤ buyable (pos 0) ≡ false
    pub allowed : IsAllowed cfg clock d.answers code price t
    pub order :
        placed t'.events ≡ placed t.events ++ ((Side.buys, code, min_ℤ quantity buyable) ∷ [])

  -- The orders are as they were, or one was added that passed every check.
  abbrev pub IsGated : TradingEngine F → Type 0
  IsGated t' = (placed t'.events ≡ placed t.events) ⊎ IsAdmitted t'

  if_IsGated :
      (b : Bool) (x y : TradingEngine F)
      → IsGated x
      → (b ≡ false → IsGated y)
      → IsGated (if b then x else y)
  if_IsGated true x y p q = p
  if_IsGated false x y p q = q refl

  read-IsGated :
      (o : Option ℤ) (y : ℤ → TradingEngine F)
      → ((n : ℤ) → o ≡ some n → IsGated (y n))
      → IsGated (elim o [ none ↦ t | some n ↦ y n ])
  read-IsGated none y h = inl refl
  read-IsGated (some n) y h = h n refl

  process_buy-Yields :
      (price : F) (signal : Signal F)
      → d.quote ≡ ok price
      → d.signal ≡ ok signal
      → signal.signal_type ≡ SignalType.buy
      → Yields IsGated (process_buy cfg clock d code deposit price signal t)
  unfolding process_buy
  process_buy-Yields price signal q s b =
      elim (Option-cases (reject_reason cfg clock code signal deposit t)) [
        | inr (reason, e) ↦
            rw (process_buy, e) (inl (placed_other t.events (outcome code reason) refl))
        | inl e ↦
            rw (process_buy, e)
              (bind_Yields IsGated
                (calculate_position_size t.risk deposit price (min_quantity cfg clock)) _
                (λ quantity z. if_IsGated (leb_ℤ quantity (pos 0)) _ _ (inl refl) (λ z_pos.
                  read-IsGated d.buyable _ (λ buyable n.
                    if_IsGated (leb_ℤ buyable (pos 0)) _ _ (inl refl) (λ n_pos.
                      elim (execute_buy-placed cfg clock d.answers code d.stock_name
                        (min_ℤ quantity buyable) price d.signal_word t) [
                          | inl o ↦ inl o
                          | inr (a, o) ↦ inr record {
                            price = price;
                            signal = signal;
                            quantity = quantity;
                            buyable = buyable;
                            quoted = q;
                            signalled = s;
                            buys = b;
                            passes = e;
                            sized = z;
                            sized_pos = z_pos;
                            can_buy = n;
                            buyable_pos = n_pos;
                            allowed = a;
                            order = o;
                          }
                        ])))))
      ]

  by_signal :
      (s : SignalType) (x : Result (TradingEngine F))
      → (s ≡ SignalType.buy → Yields IsGated x)
      → Yields IsGated (signal_case s x (ok t) (ok t))
  by_signal SignalType.buy x h = h refl
  by_signal SignalType.sell x h = inl refl
  by_signal SignalType.hold x h = inl refl

  if_Yields :
      (b : Bool) (x y : Result (TradingEngine F))
      → Yields IsGated x
      → Yields IsGated y
      → Yields IsGated (if b then x else y)
  if_Yields true x y p q = p
  if_Yields false x y p q = q

  -- Where the processing of a stock that is not held returns, it submitted no order, or the one buy
  -- that passed every gate and every guard of `_execute_buy`, the one on a pending order and the check
  -- of the database included, of the smaller of the sized and the buyable quantity.
  pub process_stock-IsGated : Yields IsGated (process_stock cfg clock d code deposit none t)
  unfolding process_stock
  process_stock-IsGated = bind_Yields IsGated d.daily _ (λ has_bars e.
      if_Yields has_bars _ _
        (bind_Yields IsGated d.quote _ (λ price q.
          bind_Yields IsGated d.signal _
            (λ signal s. by_signal signal.signal_type _ (process_buy-Yields price signal q s))))
        (inl refl))

-- ===== src/Screening/Filter/Passed.antt =====
-- What the filter of the screening lets through.
use Prim.Native.String.{String}
use kis_autotrader.Common.{
  ◌≡◌, refl, ap, Bool, true, false, not, some, All, In, In-keep, ◌&&◌, List, [], ◌∷◌, keep, inl,
  inr, Bool-cases,
}
use kis_autotrader.Float.{Float}
use kis_autotrader.Screening.{MergedCandidate, ScreeningConfig}
use text.Mathlib.Text.{◌==◌ as str_eq}
use kis_autotrader.Common.{arith, ◌||◌, Option, subst, if◌then◌else◌}
use kis_autotrader.Common.Int.{ℤ, ltb_ℤ}
use kis_autotrader.Screening.Filter.{
  TextTests, member, any_in, etf_brand_keywords, us_etf_symbols, is_etf_etn, cap_too_small,
  pass_filter, apply,
}

-- A test that returns early says no where it holds.
not_early : (b rest : Bool) → (if b then false else rest) ≡ true → (b ≡ false) × (rest ≡ true)
not_early true rest h = absurd (ground arith)
not_early false rest h = (refl, h)

neither : (a b : Bool) → (a || b) ≡ false → (a ≡ false) × (b ≡ false)
neither true b h = absurd (ground arith)
neither false b h = (refl, h)

not-true : (b : Bool) → not b ≡ true → b ≡ false
not-true true h = absurd (ground arith)
not-true false h = refl

shown : (b : Bool) → not b ≡ false → b ≡ true
shown true h = refl
shown false h = absurd (ground arith)

branch :
    (b x y : Bool)
    → (if b then x else y) ≡ false
    → ((b ≡ true → x ≡ false) × (b ≡ false → y ≡ false))
branch true x y h = (λ e. h, λ e. absurd (ground (arith, e)))
branch false x y h = (λ e. absurd (ground (arith, e)), λ e. h)

any_in-All :
    (p : String → Bool) (xs : List String) → any_in p xs ≡ false → All (λ x. p x ≡ false) xs
any_in-All p [] h = tt
any_in-All p (x ∷ xs) h = (ground arith, any_in-All p xs (ground arith))

module _ (text : TextTests) (blocklist : List String) (is_overseas : Bool) {F : Type 0}
    ⦃N : Float F⦄ (cfg : ScreeningConfig F) where
  -- `_pass_filter` repeats the test for funds.
  pass_filter-is_etf_etn :
      (item : MergedCandidate F)
      → is_etf_etn text blocklist is_overseas item.stock_code item.stock_name ≡ true
      → pass_filter text blocklist is_overseas cfg item ≡ false
  unfolding pass_filter
  pass_filter-is_etf_etn item e = rw (pass_filter, e) refl

  -- The filter keeps the candidates, in their order, that are not excluded and pass every test; its
  -- own test for funds in front of them takes out no other one.
  pub apply-keep :
      (items : List (MergedCandidate F)) (exclude_codes : List String)
      → apply text blocklist is_overseas cfg items exclude_codes
        ≡ keep
            (λ item.
              not (member item.stock_code exclude_codes)
              && pass_filter text blocklist is_overseas cfg item)
            items
  unfolding apply
  apply-keep [] exclude_codes = refl
  apply-keep (item ∷ items) exclude_codes =
      let rest = apply-keep items exclude_codes in
      elim (Bool-cases (member item.stock_code exclude_codes)) [
        | inl m ↦ rw m rest
        | inr m ↦
            rw m
              (elim (Bool-cases
                (is_etf_etn text blocklist is_overseas item.stock_code item.stock_name)) [
                  | inl e ↦ rw (e, pass_filter-is_etf_etn item e) rest
                  | inr e ↦
                      rw e (elim (Bool-cases (pass_filter text blocklist is_overseas cfg item)) [
                        | inl q ↦ rw q (ap (λ is. item ∷ is) rest)
                        | inr q ↦ rw q rest
                      ])
                ])
      ]

  -- A domestic stock that is no fund: a code of digits that is not blocked, a name of its own and
  -- without a brand of funds, and a price and a market value, if known, within the settings.
  pub record IsDomestic (item : MergedCandidate F) : Type 0 where
    pub has_digits : text.isdigit item.stock_code ≡ true
    pub not_blocked : member item.stock_code blocklist ≡ false
    pub has_name : str_eq item.stock_name "" ≡ false
    pub own_name : str_eq item.stock_name item.stock_code ≡ false
    pub no_brand :
        All
          (λ brand. text.contains (text.upper brand) (text.upper item.stock_name) ≡ false)
          etf_brand_keywords
    pub price_low : N.lt item.current_price cfg.min_price ≡ false
    pub price_high : N.lt cfg.max_price item.current_price ≡ false
    pub large : (cap : ℤ) → item.market_cap ≡ some cap → ltb_ℤ cap cfg.min_market_cap ≡ false

  -- An overseas stock that is no fund, with a price that is not too low.
  pub record IsOverseas (item : MergedCandidate F) : Type 0 where
    pub no_symbol : member (text.upper item.stock_code) us_etf_symbols ≡ false
    pub no_etf : text.contains "ETF" (text.upper item.stock_name) ≡ false
    pub no_etn : text.contains "ETN" (text.upper item.stock_name) ≡ false
    pub price_low : N.lt item.current_price cfg.min_price_us ≡ false

  -- What every candidate that is let through has.
  pub record IsListed (item : MergedCandidate F) : Type 0 where
    pub domestic : is_overseas ≡ false → IsDomestic item
    pub overseas : is_overseas ≡ true → IsOverseas item
    pub change_low : N.lt item.change_rate cfg.change_rate_min ≡ false
    pub change_high : N.lt cfg.change_rate_max item.change_rate ≡ false
    pub traded : ltb_ℤ item.volume cfg.min_volume ≡ false

  cap_known :
      (o : Option ℤ) (cap : ℤ)
      → cap_too_small text blocklist is_overseas cfg o ≡ false
      → o ≡ some cap
      → ltb_ℤ cap cfg.min_market_cap ≡ false
  cap_known o cap h e = rw e at h

  pass_filter-IsListed :
      (item : MergedCandidate F)
      → pass_filter text blocklist is_overseas cfg item ≡ true
      → IsListed item
  unfolding pass_filter is_etf_etn
  pass_filter-IsListed item h =
      let (fund, h₁) = not_early _ _ h in
      let (price, h₂) = not_early _ _ h₁ in
      let (change, h₃) = not_early _ _ h₂ in
      let (change_low, change_high) = neither _ _ change in
      let (fund_abroad, fund_here) = branch is_overseas _ _ fund in
      let (price_abroad, price_here) = branch is_overseas _ _ price in
      record {
        domestic = λ here.
            let (most, brand) = neither _ _ (fund_here here) in
            let (named, own) = neither _ _ most in
            let (free, name) = neither _ _ named in
            let (digits, blocked) = neither _ _ free in
            let (bounds, large) = neither _ _ (price_here here) in
            let (low, high) = neither _ _ bounds in
            record {
              has_digits = shown _ digits;
              not_blocked = blocked;
              has_name = name;
              own_name = own;
              no_brand =
                  any_in-All (λ k. text.contains (text.upper k) (text.upper item.stock_name))
                    etf_brand_keywords brand;
              price_low = low;
              price_high = high;
              large = λ cap e. cap_known item.market_cap cap large e;
            };
        overseas = λ abroad.
            let (most, etn) = neither _ _ (fund_abroad abroad) in
            let (symbol, etf) = neither _ _ most in
            record {
              no_symbol = symbol;
              no_etf = etf;
              no_etn = etn;
              price_low = price_abroad abroad;
            };
        change_low = change_low;
        change_high = change_high;
        traded = not-true _ h₃;
      }

  -- Every candidate that the filter lets through is one of those it was given, stands on none of the
  -- excluded codes and is listed: in the domestic market no fund by its code, its name and the
  -- brands, with a price and a known market value within the settings; overseas no fund by its symbol
  -- and its name, with a price that is not too low; and in both with a change rate and a volume
  -- within the settings.
  pub apply-IsListed :
      (items : List (MergedCandidate F)) (exclude_codes : List String) (item : MergedCandidate F)
      → In item (apply text blocklist is_overseas cfg items exclude_codes)
      → In item items × (member item.stock_code exclude_codes ≡ false) × IsListed item
  apply-IsListed items exclude_codes item m =
      let (given, passed) =
        In-keep
          (λ i.
            not (member i.stock_code exclude_codes) && pass_filter text blocklist is_overseas cfg i)
          item items (subst (In item) (apply-keep items exclude_codes) m) in
      let (free, listed) = both _ _ passed in
      (given, not-true _ free, pass_filter-IsListed item listed)
    where
      both : (a b : Bool) → (a && b) ≡ true → (a ≡ true) × (b ≡ true)
      both true b h = (refl, h)
      both false b h = absurd (ground arith)

-- ===== src/Strategy/Registry/Served.antt =====
-- Every stock has a strategy.
use Prim.Native.String.{String}
use text.Mathlib.Text.{◌==◌ as str_eq}
use kis_autotrader.Common.{
  ◌≡◌, refl, ap, subst, arith, true, some, List, [], ◌∷◌, All, keep, inl, inr, Bool-cases,
  Option-cases,
}
use kis_autotrader.Common.Dict.{lookup, put, lookup-put, lookup-remove}
use kis_autotrader.Python.{Result, ok, err, is_some, ◌>>=◌}
use kis_autotrader.Strategy.Registry.{
  StrategyRegistry, StrategySelector, get, has, found, put_all, init, get_strategy, set_mapping,
  remove_mapping, from_config,
}

ok_inj : {A : Type 0} {x y : A} → ok x ≡ ok y → x ≡ y
ok_inj e = cc

module _ (normal : String → String) (idempotent : (n : String) → normal (normal n) ≡ normal n)
    {S : Type 0} where
  -- A name under which the registry has a strategy.
  IsKnown : StrategyRegistry S → String → Type 0
  IsKnown r name = has normal name r ≡ true

  record IsServing (s : StrategySelector S) : Type 0 where
    default_known : IsKnown s.registry s.default_name
    mappings_known :
        (code name : String) → lookup code s.mappings ≡ some name → IsKnown s.registry name

  normal-IsKnown :
      (r : StrategyRegistry S) (name : String) → IsKnown r name → IsKnown r (normal name)
  unfolding IsKnown has
  normal-IsKnown r name h = rw (idempotent name) h

  plain-IsKnown :
      (r : StrategyRegistry S) (name : String) → IsKnown r (normal name) → IsKnown r name
  unfolding IsKnown has
  plain-IsKnown r name h = rw idempotent at h

  get-ok :
      (r : StrategyRegistry S) (name : String)
      → IsKnown r name
      → (x : S) × (get normal name r ≡ ok x)
  unfolding IsKnown get has
  get-ok r name h = elim (Option-cases (lookup (normal name) r.strategies)) [
    | inl e ↦ absurd (ground (arith, e))
    | inr (x, e) ↦ (x, ap (found normal) e)
  ]

  ok-IsKnown :
      (r : StrategyRegistry S) (name : String) (x : S) → get normal name r ≡ ok x → IsKnown r name
  unfolding IsKnown get has
  ok-IsKnown r name x h = elim (Option-cases (lookup (normal name) r.strategies)) [
    | inl e ↦ absurd (ground (arith, e))
    | inr (y, e) ↦ ap is_some e
  ]

  put-IsKnown :
      (r : StrategyRegistry S) (code name : String) (mappings : List (String × String))
      → IsKnown r name
      → ((c n : String) → lookup c mappings ≡ some n → IsKnown r n)
      → (c n : String) → lookup c (put code (normal name) mappings) ≡ some n
      → IsKnown r n
  put-IsKnown r code name mappings h all c n e = elim (Bool-cases (str_eq code c)) [
    | inl q ↦
        let same : normal name ≡ n =
          ground (arith, e, lookup-put c code (normal name) mappings, q) in
        subst (IsKnown r) same (normal-IsKnown r name h)
    | inr q ↦ all c n (ground (arith, e, lookup-put c code (normal name) mappings, q))
  ]

  put_all-IsKnown :
      (r : StrategyRegistry S) (given mappings : List (String × String))
      → All (λ (e : String × String). IsKnown r e.1) given
      → ((c n : String) → lookup c mappings ≡ some n → IsKnown r n)
      → (c n : String) → lookup c (put_all normal given mappings) ≡ some n
      → IsKnown r n
  unfolding put_all
  put_all-IsKnown r [] mappings h all = all
  put_all-IsKnown r ((code, name) ∷ given) mappings (h, hs) all =
      put_all-IsKnown r given (put code (normal name) mappings) hs
        (put-IsKnown r code name mappings h all)

  keep-IsKnown :
      (r : StrategyRegistry S) (parsed : List (String × String))
      → All (λ (e : String × String). IsKnown r e.1) (keep (λ e. has normal e.1 r) parsed)
  unfolding IsKnown
  keep-IsKnown r [] = tt
  keep-IsKnown r (e ∷ parsed) = elim (Bool-cases (has normal e.1 r)) [
    | inl h ↦ rw h (h, keep-IsKnown r parsed)
    | inr h ↦ rw h (keep-IsKnown r parsed)
  ]

  init-IsServing :
      (r : StrategyRegistry S) (default : String) (given : List (String × String))
      (s : StrategySelector S)
      → All (λ (e : String × String). IsKnown r e.1) given
      → init normal r default given ≡ ok s
      → IsServing s
  unfolding init lookup
  init-IsServing r default given s h e = by_default (get normal (normal default) r) refl e
    where
      by_default :
          (found_default : Result S)
          → get normal (normal default) r ≡ found_default
          → (found_default >>= λ strategy. ok (record {
            registry = r;
            default_name = normal default;
            mappings = put_all normal given [];
          }))
            ≡ ok s
          → IsServing s
      by_default (err raised) q k = cc
      by_default (ok x) q k = subst IsServing (ok_inj k) (record {
        default_known = ok-IsKnown r (normal default) x q;
        mappings_known = put_all-IsKnown r given [] h (λ c n f. none_yet c n f);
      })
        where
          none_yet : (c n : String) → lookup {V = String} c [] ≡ some n → IsKnown r n
          none_yet c n f = absurd (ground (arith, f))

  set_mapping-IsServing :
      (code name : String) (s s' : StrategySelector S)
      → set_mapping normal code name s ≡ ok s'
      → IsServing s
      → IsServing s'
  unfolding set_mapping
  set_mapping-IsServing code name s s' e serving =
      by_name (get normal (normal name) s.registry) refl e
    where
      by_name :
          (strategy : Result S)
          → get normal (normal name) s.registry ≡ strategy
          → (strategy >>= λ x. ok (record s { mappings = put code (normal name) s.mappings }))
            ≡ ok s'
          → IsServing s'
      by_name (err raised) q k = cc
      by_name (ok x) q k = subst IsServing (ok_inj k) (record {
        default_known = serving.default_known;
        mappings_known =
            put-IsKnown s.registry code name s.mappings
              (plain-IsKnown s.registry name (ok-IsKnown s.registry (normal name) x q))
              serving.mappings_known;
      })

  remove_mapping-IsServing :
      (code : String) (s : StrategySelector S)
      → IsServing s
      → IsServing (remove_mapping normal code s)
  remove_mapping-IsServing code s serving = elim (Bool-cases (is_some (lookup code s.mappings))) [
    | inl e ↦ rw e record {
      default_known = serving.default_known;
      mappings_known = λ c n f. serving.mappings_known c n (elim (Bool-cases (str_eq code c)) [
        | inl q ↦ absurd (ground (arith, f, lookup-remove c code s.mappings, q))
        | inr q ↦ ground (arith, f, lookup-remove c code s.mappings, q)
      ]);
    }
    | inr e ↦ rw e serving
  ]

  get_strategy-ok :
      (code : String) (s : StrategySelector S)
      → IsServing s
      → (x : S) × (get_strategy normal code s ≡ ok x)
  unfolding get_strategy
  get_strategy-ok code s serving = elim (Option-cases (lookup code s.mappings)) [
    | inl e ↦ rw e (get-ok s.registry s.default_name serving.default_known)
    | inr (n, e) ↦ rw e (get-ok s.registry n (serving.mappings_known code n e))
  ]

-- A change of the mapping; one that raises changes nothing.
pub data Change : Type 0 where
  sets : String → String → Change
  removes : String → Change

module _ (normal : String → String) {S : Type 0} where
  abbrev pub after_change : Change → StrategySelector S → StrategySelector S
  after_change (sets code name) s = elim (set_mapping normal code name s) [ ok s' ↦ s' | err e ↦ s ]
  after_change (removes code) s = remove_mapping normal code s

  abbrev pub after_changes : List Change → StrategySelector S → StrategySelector S
  after_changes [] s = s
  after_changes (c ∷ changes) s = after_changes changes (after_change c s)

module _ (normal : String → String) (idempotent : (n : String) → normal (normal n) ≡ normal n)
    {S : Type 0} where
  after_changes-IsServing :
      (changes : List Change) (s : StrategySelector S)
      → IsServing normal idempotent s
      → IsServing normal idempotent (after_changes normal changes s)
  after_changes-IsServing [] s h = h
  after_changes-IsServing (sets code name ∷ changes) s h =
      after_changes-IsServing changes (after_change normal (sets code name) s)
        (by_answer (set_mapping normal code name s) refl)
    where
      by_answer :
          (r : Result (StrategySelector S))
          → set_mapping normal code name s ≡ r
          → IsServing normal idempotent (elim r [ ok s' ↦ s' | err e ↦ s ])
      by_answer (ok s') e = set_mapping-IsServing normal idempotent code name s s' e h
      by_answer (err raised) e = h
  after_changes-IsServing (removes code ∷ changes) s h =
      after_changes-IsServing changes (remove_mapping normal code s)
        (remove_mapping-IsServing normal idempotent code s h)

  -- A selector made from the configuration has a strategy for every stock, whatever the settings
  -- name, and after any changes of the mappings; `get_strategy` never raises.
  pub from_config-get_strategy :
      (r : StrategyRegistry S) (default : String) (parsed : List (String × String))
      (s : StrategySelector S) (changes : List Change) (code : String)
      → from_config normal r default parsed ≡ ok s
      → (x : S) × (get_strategy normal code (after_changes normal changes s) ≡ ok x)
  unfolding from_config
  from_config-get_strategy r default parsed s changes code e =
      get_strategy-ok normal idempotent code (after_changes normal changes s) (
        after_changes-IsServing changes s
          (init-IsServing normal idempotent r _ _ s (keep-IsKnown normal idempotent r parsed) e))

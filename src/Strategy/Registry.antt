-- ===== src/Strategy/Registry.antt =====
-- src/strategy/registry.py, StrategyRegistry, and src/strategy/selector.py, StrategySelector. How
-- Python strips and lowers a name (`name.strip().lower()`) is a parameter.
pub mod Served
use Prim.Native.String.{String}
use kis_autotrader.Common.{
  Bool, true, false, Option, none, some, List, [], ◌∷◌, map, keep, if◌then◌else◌,
}
use kis_autotrader.Common.Dict.{lookup, put, remove}
use kis_autotrader.Common.Sort.{sorted}
use kis_autotrader.Common.Texts.{text_lt}
use kis_autotrader.Python.{Result, ok, err, value_error, key_error, is_some, or_default, ◌>>=◌}

pub record StrategyRegistry (S : Type 0) : Type 0 where
  pub strategies : List (String × S)

pub record StrategySelector (S : Type 0) : Type 0 where
  pub registry : StrategyRegistry S
  pub default_name : String
  pub mappings : List (String × String)

module _ (normal : String → String) where
  -- The loop of `StrategySelector.__init__` over the mappings given
  unfoldable pub put_all : List (String × String) → List (String × String) → List (String × String)
  put_all [] mappings = mappings
  put_all ((code, name) ∷ rest) mappings = put_all rest (put code (normal name) mappings)

module _ (normal : String → String) {S : Type 0} where
  unfoldable pub register : String → S → StrategyRegistry S → Result (StrategyRegistry S)
  register name strategy r =
      if is_some (lookup (normal name) r.strategies)
      then err value_error
      else ok (record { strategies = put (normal name) strategy r.strategies })

  abbrev pub found : Option S → Result S
  found none = err key_error
  found (some strategy) = ok strategy

  unfoldable pub get : String → StrategyRegistry S → Result S
  get name r = found (lookup (normal name) r.strategies)

  unfoldable pub has : String → StrategyRegistry S → Bool
  has name r = is_some (lookup (normal name) r.strategies)

  abbrev pub list_strategies : StrategyRegistry S → List String
  list_strategies r = sorted text_lt (map (λ (e : String × S). e.0) r.strategies)

  -- `StrategySelector.__init__`
  unfoldable pub init :
      StrategyRegistry S → String → List (String × String) → Result (StrategySelector S)
  init r default_strategy given = get (normal default_strategy) r >>= λ strategy. ok (record {
    registry = r;
    default_name = normal default_strategy;
    mappings = put_all normal given [];
  })

  unfoldable pub get_strategy : String → StrategySelector S → Result S
  get_strategy code s = get (or_default (lookup code s.mappings) s.default_name) s.registry

  unfoldable pub set_mapping : String → String → StrategySelector S → Result (StrategySelector S)
  set_mapping code name s = get (normal name) s.registry >>= λ strategy.
      ok (record s { mappings = put code (normal name) s.mappings })

  abbrev pub remove_mapping : String → StrategySelector S → StrategySelector S
  remove_mapping code s =
      if is_some (lookup code s.mappings) then record s { mappings = remove code s.mappings } else s

  -- `from_config`: the settings' default and the entries of `parse_mappings`
  unfoldable pub from_config :
      StrategyRegistry S → String → List (String × String) → Result (StrategySelector S)
  from_config r default parsed =
      let mappings = keep (λ (e : String × String). has e.1 r) parsed in
      let default_strategy = if has default r then default else "ensemble" in
      init r default_strategy mappings

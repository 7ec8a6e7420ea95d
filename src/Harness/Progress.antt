-- ===== src/Harness/Progress.antt =====
-- src/harness/progress.py: the states of the proposals of a cycle. A transition's time is an argument;
-- of CycleProgress the fields that `transition` neither reads nor writes are left out.
pub mod Moves
use Prim.Native.String.{String}
use text.Mathlib.Text.{◌==◌ as str_eq}
use kis_autotrader.Common.{
  ℕ, ◌≡◌, refl, Bool, true, false, ◌||◌, Option, none, some, List, [], ◌∷◌, ◌++◌, if◌then◌else◌,
}

pub record StateTransition : Type 0 where
  pub path : String
  pub from_state : String
  pub to_state : String
  pub at : ℕ
  pub reason : Option String

-- The five lists of a progress, by the name of the attribute.
pub data ListField : Type 0 where
  pending in_flight completed failed skipped : ListField

pub record CycleProgress : Type 0 where
  pub cycle_id : String
  pub pending : List String
  pub in_flight : List String
  pub completed : List String
  pub failed : List String
  pub skipped : List String
  pub history : List StateTransition

-- `_STATE_LIST_FIELD.get(state)`
abbrev pub state_list_field : String → Option ListField
state_list_field s =
    if str_eq s "pending"
    then some ListField.pending
    else if str_eq s "ready"
    then some ListField.pending
    else if str_eq s "in_flight"
    then some ListField.in_flight
    else if str_eq s "implemented"
    then some ListField.completed
    else if str_eq s "completed"
    then some ListField.completed
    else if str_eq s "failed"
    then some ListField.failed
    else if str_eq s "skipped"
    then some ListField.skipped
    else none

-- `getattr(self, field)`, and the attribute with another value.
unfoldable pub get : ListField → CycleProgress → List String
get ListField.pending p = p.pending
get ListField.in_flight p = p.in_flight
get ListField.completed p = p.completed
get ListField.failed p = p.failed
get ListField.skipped p = p.skipped

unfoldable pub set : ListField → List String → CycleProgress → CycleProgress
set ListField.pending xs p = record p { pending = xs }
set ListField.in_flight xs p = record p { in_flight = xs }
set ListField.completed xs p = record p { completed = xs }
set ListField.failed xs p = record p { failed = xs }
set ListField.skipped xs p = record p { skipped = xs }

-- `path in xs` and `xs.remove(path)`, which takes the first item away
abbrev pub contains : String → List String → Bool
contains x [] = false
contains x (y ∷ ys) = str_eq x y || contains x ys

abbrev pub remove : String → List String → List String
remove x [] = []
remove x (y ∷ ys) = if str_eq x y then ys else y ∷ remove x ys

unfoldable pub leave : String → Option ListField → CycleProgress → CycleProgress
leave path none p = p
leave path (some f) p = if contains path (get f p) then set f (remove path (get f p)) p else p

unfoldable pub join : String → Option ListField → CycleProgress → CycleProgress
join path none p = p
join path (some f) p = if contains path (get f p) then p else set f (get f p ++ (path ∷ [])) p

-- `CycleProgress.transition`
unfoldable pub transition : StateTransition → CycleProgress → CycleProgress
transition t p =
    join t.path (state_list_field t.to_state)
      (leave t.path (state_list_field t.from_state) (record p { history = p.history ++ (t ∷ []) }))

unfoldable pub transitions : List StateTransition → CycleProgress → CycleProgress
transitions [] p = p
transitions (t ∷ ts) p = transitions ts (transition t p)

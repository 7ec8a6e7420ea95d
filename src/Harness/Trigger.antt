-- ===== src/Harness/Trigger.antt =====
-- src/harness/trigger.py: the guard before a cycle. The lock files are a state: a lock is there or
-- not, the cycle's with the cycle's id. Clock and the text of a refused interval are arguments.
use Prim.Native.String.{String}
use text.Mathlib.Text.{◌==◌ as str_eq}
use kis_autotrader.Common.{Bool, true, false, not, ◌&&◌, Option, none, some, if◌then◌else◌}
use kis_autotrader.Common.Int.{ℤ}
use kis_autotrader.Float.{Float, ◌⊖◌}
use kis_autotrader.Python.{is_some}

pub record LockFiles : Type 0 where
  pub pause : Bool
  pub cycle : Option String

pub record TriggerDecision : Type 0 where
  pub allowed : Bool
  pub reason : String

-- The arguments of `can_trigger`.
pub record TriggerRequest (F : Type 0) : Type 0 where
  pub env : String
  pub market_hour : Bool
  pub force : Bool
  pub last_completed_at : Option F

abbrev pub refuse : String → TriggerDecision
refuse reason = record { allowed = false; reason = reason }

abbrev pub allow : TriggerDecision
allow = record { allowed = true; reason = "" }

abbrev pub set_paused : Bool → LockFiles → LockFiles
set_paused value l = record l { pause = value }

unfoldable pub acquire_cycle_lock : String → LockFiles → LockFiles
acquire_cycle_lock cycle_id l = record l { cycle = some cycle_id }

unfoldable pub release_cycle_lock : LockFiles → LockFiles
release_cycle_lock l = record l { cycle = none }

module _ {F : Type 0} ⦃N : Float F⦄ (interval_text : F → ℤ → String) where
  abbrev pub check_interval : ℤ → F → Option F → TriggerDecision
  check_interval min_interval now none = allow
  check_interval min_interval now (some last) =
      if N.lt (now ⊖ last) (N.of_ℤ min_interval)
      then refuse (interval_text (now ⊖ last) min_interval)
      else allow

  unfoldable pub can_trigger : ℤ → F → TriggerRequest F → LockFiles → TriggerDecision
  can_trigger min_interval now r l =
      if l.pause
      then refuse "harness paused (pause lock present)"
      else if is_some l.cycle
      then refuse "cycle in-flight (lock present)"
      else if str_eq r.env "real" && r.market_hour && not r.force
      then refuse "KIS_ENV=real + market hour requires --force"
      else check_interval min_interval now r.last_completed_at

-- ===== src/Pool/Cycle.antt =====
-- The end of a pool's cycle (`decide` and `reconcile`, src/controller/node_scaling_pool.rs): its
-- decisions are written to the machines, then the status of the pool. What `plan` returns is an
-- argument, with its texts.
pub mod Writes
pub mod Tests
use kube_hardware_autoscaler.Base.{
  ℕ, ◌+◌, ◌-◌, min, String, Bool, Option, none, some, List, [], ◌∷◌, ◌++◌, if◌then◌else◌, is_empty,
  contains, length, unwrap_or,
}
use kube_hardware_autoscaler.Base.Time.{Time}
use kube_hardware_autoscaler.Crd.Enums.{PowerTarget, DecisionAction}
use kube_hardware_autoscaler.Crd.Status.{Condition, ScalingDecision}
use kube_hardware_autoscaler.Machine.Run.{ApiError}
use kube_hardware_autoscaler.Membership.{sort_names}
use kube_hardware_autoscaler.Pool.Decisions.{PlannedDecision, DecisionRecord, record_decisions}

pub record NodeScalingPoolStatus : Type 0 where
  pub members : List String
  pub conflicts : List String
  pub releasable : List String
  pub needed : List (String × String)
  pub total_nodes : ℕ
  pub online_nodes : ℕ
  pub pending_pods : ℕ
  pub last_scale_up_time : Option Time
  pub last_scale_down_time : Option Time
  pub unneeded_since : List (String × Time)
  pub message : Option String
  pub conditions : List Condition
  pub recent_decisions : List DecisionRecord

-- What `plan` returns, as far as the cycle uses it.
pub record Plan : Type 0 where
  pub decisions : List PlannedDecision
  pub online : ℕ
  pub power_on : List String
  pub power_off : List String
  pub releasable : List String
  pub needed : List (String × String)
  pub relevant_pending : ℕ
  pub unneeded_since : List (String × Time)
  pub message : String

-- The writes and events of a cycle, in order.
pub data Effect : Type 0 where
  decided : (member : String) → ScalingDecision → Effect
  pool_event machine_event : (reason : String) → Effect
  patched : NodeScalingPoolStatus → Effect

abbrev pub target_of : DecisionAction → Option PowerTarget
target_of DecisionAction.power_on = some PowerTarget.on
target_of DecisionAction.power_off = some PowerTarget.off
target_of DecisionAction.no_action = none

abbrev event_name : PowerTarget → String
event_name PowerTarget.on = "ScaleUpSelected"
event_name PowerTarget.off = "ScaleDownSelected"

abbrev pub member_of : PlannedDecision → String
member_of d = unwrap_or d.node ""

-- What `decide` writes. The reason is a text for people.
abbrev pub decision : String → Time → PowerTarget → ScalingDecision
decision pool now target = record { pool = pool; target = target; time = now }

module _ (pool : String) (now : Time) (managed : List String)
    (answer : String → Option ApiError) where
  -- The events of a decision that was written: on the pool, and on the machine if it is managed.
  abbrev pub events : PlannedDecision → PowerTarget → List Effect
  events d target =
      pool_event (event_name target)
      ∷ (if contains managed (member_of d) then machine_event (event_name target) ∷ [] else [])

  abbrev pub before : List Effect → List Effect × Option ApiError → List Effect × Option ApiError
  before effects (later, e) = (effects ++ later, e)

  -- One decision of the loop: `?` ends the cycle at a write that fails. A `NoAction` is only told.
  abbrev pub step :
      PlannedDecision
      → Option PowerTarget
      → List Effect × Option ApiError
      → List Effect × Option ApiError
  step d none later = later
  step d (some target) later = elim (answer (member_of d)) [
    | some e ↦ ([], some e)
    | none ↦ before (decided (member_of d) (decision pool now target) ∷ events d target) later
  ]

  write_decisions : List PlannedDecision → List Effect × Option ApiError
  write_decisions [] = ([], none)
  write_decisions (d ∷ ds) = step d (target_of d.action) (write_decisions ds)

abbrev later_time : Bool → Time → Option Time → Option Time
later_time none_chosen now old = if none_chosen then old else some now

-- The status after the cycle, with its conditions and decision log.
abbrev pub new_status : Time → List String → Plan → NodeScalingPoolStatus → NodeScalingPoolStatus
new_status now managed p st = record st {
  members = sort_names managed;
  conflicts = [];
  releasable = p.releasable;
  needed = p.needed;
  total_nodes = length managed;
  online_nodes = p.online + length p.power_on - min (length p.power_off) p.online;
  pending_pods = p.relevant_pending;
  unneeded_since = p.unneeded_since;
  message = some p.message;
  last_scale_up_time = later_time (is_empty p.power_on) now st.last_scale_up_time;
  last_scale_down_time = later_time (is_empty p.power_off) now st.last_scale_down_time;
}

abbrev pub finish :
    NodeScalingPoolStatus
    → Option ApiError
    → List Effect × Option ApiError
    → List Effect × Option ApiError
finish st patching (effects, some e) = (effects, some e)
finish st (some e) (effects, none) = (effects, some e)
finish st none (effects, none) = (effects ++ (patched st ∷ []), none)

-- The cycle after `plan`: the decisions that are new, then the status. The Events for a `NoAction` are
-- left out, as the verbosity decides on them.
unfoldable pub finish_cycle :
    String
    → Time
    → List String
    → (String → Option ApiError)
    → Option ApiError
    → Plan
    → NodeScalingPoolStatus
    → List Effect × Option ApiError
unfolding write_decisions
finish_cycle pool now managed answer patching p st =
    let logged = record_decisions st.recent_decisions p.decisions now in
    finish (new_status now managed p (record st { recent_decisions = logged.0 })) patching
      (write_decisions pool now managed answer logged.1)

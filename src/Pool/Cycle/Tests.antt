-- ===== src/Pool/Cycle/Tests.antt =====
-- The writes of a cycle (src/controller/node_scaling_pool.rs).
use kube_hardware_autoscaler.Base.{
  String, ◌≡◌, refl, Option, none, some, [], ◌∷◌, str_eq, if◌then◌else◌,
}
use kube_hardware_autoscaler.Crd.Enums.{DecisionAction, PowerTarget}
use kube_hardware_autoscaler.Machine.Run.{ApiError, api_error}
use kube_hardware_autoscaler.Pool.Decisions.{PlannedDecision, record_decisions, append_decisions}
use kube_hardware_autoscaler.Pool.Cycle.{
  NodeScalingPoolStatus, Plan, finish_cycle, write_decisions, decision,
}
use kube_hardware_autoscaler.Pool.Cycle.Writes.{decided_of}
use kube_hardware_autoscaler.Samples.{noon}

abbrev choose : DecisionAction → String → PlannedDecision
choose action name = record {
  action = action;
  node = some name;
  reason = "unneeded";
  live_reason = "unneeded";
  candidates = "";
}

-- One machine is to go on and two are to go off.
abbrev chosen : Plan
chosen = record {
  decisions =
      choose DecisionAction.power_on "m1"
      ∷ choose DecisionAction.power_off "m2"
      ∷ choose DecisionAction.power_off "m3"
      ∷ [];
  online = 2;
  power_on = "m1" ∷ [];
  power_off = "m2" ∷ "m3" ∷ [];
  releasable = [];
  needed = [];
  relevant_pending = 1;
  unneeded_since = [];
  message = "";
}

abbrev fresh_status : NodeScalingPoolStatus
fresh_status = record {
  members = [];
  conflicts = [];
  releasable = [];
  needed = [];
  total_nodes = 0;
  online_nodes = 0;
  pending_pods = 0;
  last_scale_up_time = none;
  last_scale_down_time = none;
  unneeded_since = [];
  message = none;
  conditions = [];
  recent_decisions = [];
}

-- The write to the second machine fails.
abbrev answer : String → Option ApiError
answer name = if str_eq name "m2" then some (api_error "conflict") else none

only_the_first :
    decided_of (finish_cycle "a" noon ("m1" ∷ "m2" ∷ []) answer none chosen fresh_status).0
    ≡ ("m1", decision "a" noon PowerTarget.on) ∷ []
unfolding finish_cycle write_decisions record_decisions append_decisions
only_the_first = refl

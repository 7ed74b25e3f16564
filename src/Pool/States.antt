-- ===== src/Pool/States.antt =====
-- How a machine's status counts for the autoscaler (`member_state` and `classify`,
-- src/controller/node_scaling_pool.rs). The notes for the decision log are left out.
pub mod Wakeable
use kube_hardware_autoscaler.Base.{
  ℕ, ◌+◌, ◌*◌, String, Bool, true, false, ◌&&◌, ◌||◌, not, Option, none, some, List, ltb, contains,
  is_some, is_some_and, filter_option, unwrap_or, if◌then◌else◌,
}
use kube_hardware_autoscaler.Base.Time.{Time, nanos}
use kube_hardware_autoscaler.Crd.Enums.{
  Phase, PowerPolicy, PowerTarget, ManualPowerOnPolicy, phase_eq, targets_on,
}
use kube_hardware_autoscaler.Crd.Spec.{NodeScalingPoolSpec}
use kube_hardware_autoscaler.Crd.Conditions.{condition_is}
use kube_hardware_autoscaler.Crd.Status.{
  NodePowerManagementConfigStatus, BootFailure, ManualPowerChange, ScalingDecision,
}
use kube_hardware_autoscaler.Machine.Gates.{cond_power_state_consistent}
use kube_hardware_autoscaler.Scaling.Members.{MemberState, state_eq}

abbrev Status : Type 0
Status = NodePowerManagementConfigStatus

abbrev pub ready_on : Status → Bool
ready_on st = phase_eq st.phase Phase.on && st.node_ready

abbrev pub decision_of : Status → List String → Option PowerTarget
decision_of st pools = elim st.scaling_decision [
  | none ↦ none
  | some d ↦ if contains pools d.pool then some d.target else none
]

abbrev is_at_rest : Phase → Bool
is_at_rest Phase.off = true
is_at_rest Phase.standby = true
is_at_rest _ = false

abbrev has_failed : Phase → Bool
has_failed Phase.error = true
has_failed Phase.boot_failed = true
has_failed _ = false

abbrev by_phase : Phase → Bool → MemberState
by_phase Phase.on ready = if ready then MemberState.online else MemberState.booting
by_phase Phase.powering_on ready = MemberState.booting
by_phase Phase.off ready = MemberState.offline
by_phase Phase.standby ready = MemberState.offline
by_phase Phase.draining ready = MemberState.leaving
by_phase Phase.powering_off ready = MemberState.leaving
by_phase _ ready = MemberState.unavailable

by_decision : Option PowerTarget → Status → MemberState
by_decision (some PowerTarget.off) st =
    if is_at_rest st.phase then MemberState.offline else MemberState.leaving
by_decision (some PowerTarget.on) st =
    if ready_on st
    then MemberState.online
    else if has_failed st.phase
    then MemberState.unavailable
    else MemberState.booting
by_decision none st = by_phase st.phase st.node_ready

abbrev pub inconsistent : Status → Bool
inconsistent st = condition_is st.conditions cond_power_state_consistent "False"

by_policy : PowerPolicy → Status → List String → MemberState
unfolding by_decision
by_policy PowerPolicy.always_on st pools =
    if ready_on st then MemberState.online else MemberState.unavailable
by_policy PowerPolicy.always_off st pools = MemberState.unavailable
by_policy PowerPolicy.auto st pools = by_decision (decision_of st pools) st

unfoldable pub member_state : PowerPolicy → Status → List String → MemberState
unfolding by_policy
member_state policy st pools =
    if inconsistent st then MemberState.unavailable else by_policy policy st pools

-- What replaces or adds to the plain state.
pub record Special : Type 0 where
  pub state : Option MemberState
  pub adopted_at : Option Time
  pub release_after : Option Time

abbrev nothing_special : Special
nothing_special = record { state = none; adopted_at = none; release_after = none }

abbrev special_state : MemberState → Special
special_state m = record { state = some m; adopted_at = none; release_after = none }

-- The boot failure backoff is running.
abbrev pub backing_off : Option BootFailure → NodeScalingPoolSpec → Time → Bool
backing_off failure spec now =
    is_some_and failure
      (λ f. not f.left_on && ltb now (f.time + spec.scale_up.boot_failure_backoff_seconds * nanos))

-- The cooldown after a manual power-off is running.
abbrev pub cooling_down : Option ManualPowerChange → ℕ → Time → Bool
cooling_down off cooldown_secs now =
    is_some_and off (λ o. ltb 0 cooldown_secs && ltb now (o.time + cooldown_secs * nanos))

offline_special : Status → NodeScalingPoolSpec → ℕ → Time → Special
offline_special st spec cooldown_secs now =
    if backing_off st.boot_failure spec now
    then special_state MemberState.unavailable
    else if cooling_down st.manual_power_off cooldown_secs now
    then special_state MemberState.unavailable
    else nothing_special

manual_special : ManualPowerOnPolicy → Bool → NodeScalingPoolSpec → ManualPowerChange → Special
manual_special ManualPowerOnPolicy.leave_on ready spec on =
    special_state (if ready then MemberState.manual else MemberState.unavailable)
manual_special ManualPowerOnPolicy.adopt ready spec on = record {
  state = none;
  adopted_at = some on.time;
  release_after = none;
}
manual_special ManualPowerOnPolicy.power_off ready spec on = record {
  state = none;
  adopted_at = none;
  release_after = some (on.time + spec.manual_power_on_grace_seconds * nanos);
}

manual_or_not :
    ManualPowerOnPolicy → NodeScalingPoolSpec → Bool → Option ManualPowerChange → Special
unfolding manual_special
manual_or_not policy spec ready none = nothing_special
manual_or_not policy spec ready (some on) = manual_special policy ready spec on

unfoldable pub classify :
    Status → MemberState → ManualPowerOnPolicy → NodeScalingPoolSpec → ℕ → Time → Special
unfolding offline_special manual_or_not
classify st base policy spec cooldown_secs now =
    if phase_eq st.phase Phase.boot_failed && is_some st.boot_failure
    then special_state MemberState.unavailable
    else if state_eq base MemberState.offline
    then offline_special st spec cooldown_secs now
    else manual_or_not policy spec st.node_ready st.manual_power_on

-- The state that `build_member` gives a member.
abbrev pub classified_state :
    PowerPolicy
    → Status
    → List String
    → ManualPowerOnPolicy
    → NodeScalingPoolSpec
    → ℕ
    → Time
    → MemberState
classified_state power_policy st pools policy spec cooldown_secs now =
    let base = member_state power_policy st pools in
    unwrap_or (classify st base policy spec cooldown_secs now).state base

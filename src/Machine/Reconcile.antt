-- ===== src/Machine/Reconcile.antt =====
-- `reconcile` of the machine controller (src/controller/node_power_management_config.rs). The
-- result is the seconds to the next reconcile or the error of a Node write; the status of the state
-- is what is patched (on an error it is not).
pub mod Commands
pub mod Safety
pub mod Missing
pub mod Overdue
pub mod Left
pub mod Reach
pub mod Tests
use kube_hardware_autoscaler.Base.{
  ℕ, String, Bool, true, false, ◌&&◌, ◌||◌, not, Option, none, some, List, [], ◌∷◌, map, filter,
  contains, is_some, if◌then◌else◌,
}
use kube_hardware_autoscaler.Crd.Enums.{
  Phase, PowerState, PowerTarget, ManualPowerOnPolicy, PowerOnFailurePolicy, reads_off, targets_on,
}
use kube_hardware_autoscaler.Crd.Texts.{
  ChainError, build_failed, cannot_read_power_state, node_not_found, power_state_contradicts,
}
use kube_hardware_autoscaler.Crd.Spec.{ScaleUpSpec}
use kube_hardware_autoscaler.Crd.Effective.{
  effective_boot_timeout, effective_manual_power_on_policy, effective_power_on_failure,
}
use kube_hardware_autoscaler.Crd.Status.{NodePowerManagementConfigStatus, ScalingDecision}
use kube_hardware_autoscaler.Drivers.Driver.{Result, ok, err}
use kube_hardware_autoscaler.Drivers.Chain
use kube_hardware_autoscaler.Drivers.Chain.{PowerChain, Outcome, Checked, disable_mismatched}
use kube_hardware_autoscaler.Membership.{Pool}
use kube_hardware_autoscaler.Machine.Rules.{
  ManualChange, powered_on, detect_manual_change, managed_target,
}
use kube_hardware_autoscaler.Machine.Boot.{BootEvent, track_boot}
use kube_hardware_autoscaler.Machine.Run.{
  Env, ApiError, Machine, M, ◌>>=◌, ◌>>◌, pure, lift, step, update, say,
}
use kube_hardware_autoscaler.Machine.On.{ensure_on, normal, slow}
use kube_hardware_autoscaler.Machine.Off.{ensure_off}
use kube_hardware_autoscaler.Machine.Events.{manual_change, boot, observe}
use kube_hardware_autoscaler.Machine.Gates.{
  World, gate_node, gate_membership, identity_results, gate_identity, consistent, gate_consistency,
}

abbrev Status : Type 0
Status = NodePowerManagementConfigStatus

abbrev member_pools : World → Status → List Pool
member_pools w st = filter (λ p. contains st.pools p.name) w.pools

-- The pool whose power-on decision is in force.
abbrev power_on_pool : Option ScalingDecision → Option String
power_on_pool none = none
power_on_pool (some d) = if targets_on d.target then some d.pool else none

abbrev pub boot_timeout_of : World → Status → ℕ
boot_timeout_of w st =
    effective_boot_timeout w.spec.lifecycle.boot_timeout_seconds
      (map (λ p. p.spec.scale_up.boot_timeout_seconds) (member_pools w st))

abbrev pub manual_policy_of : World → Status → ManualPowerOnPolicy
manual_policy_of w st =
    effective_manual_power_on_policy w.spec.manual_power_on_policy
      (map (λ p. p.spec.manual_power_on_policy) (member_pools w st))

abbrev power_on_failure_of : World → Status → PowerOnFailurePolicy × ℕ
power_on_failure_of w st =
    effective_power_on_failure (power_on_pool st.scaling_decision)
      (map (λ p. (p.name, p.spec.scale_up)) (member_pools w st)) (boot_timeout_of w st)

-- The `Reconciler` of this run.
abbrev pub env_of : World → PowerChain → Status → Env
env_of w chain st = record {
  now = w.now;
  dry_run = w.dry_run;
  spec = w.spec;
  node = w.node;
  pods = w.pods;
  run_in_band = w.run_in_band;
  probe = w.probe;
  write = w.write;
  chain = chain;
  boot_timeout = boot_timeout_of w st;
  manual_policy = manual_policy_of w st;
  power_on_failure_policy = (power_on_failure_of w st).0;
  power_on_timeout = (power_on_failure_of w st).1;
}

abbrev is_powered_on : ManualChange → Bool
is_powered_on powered_on = true
is_powered_on _ = false

-- A machine seen off is under normal management again, whoever turned it off.
abbrev pub seen_off : ManualChange → Status → Status
seen_off change st =
    if reads_off st.power_state && (not st.node_ready && not (is_powered_on change))
    then record st { manual_power_on = none }
    else st

-- The desired state decides.
unfoldable pub drive : Env → Option PowerTarget → M ℕ
drive env none = lift (observe env)
drive env (some PowerTarget.on) = ensure_on env
drive env (some PowerTarget.off) = ensure_off env

-- Safety gates that failed: only report.
abbrev refuse_acting : Env → Bool → Machine → Machine
refuse_acting env found =
    update (say (if found then power_state_contradicts else node_not_found env.spec.node_name))

-- The normal state machine, unless a gate failed.
unfoldable pub manage : Env → Bool → Bool → M ℕ
manage env found consistent s =
    if not found || not consistent
    then lift (observe env) (refuse_acting env found s)
    else drive env (managed_target env.spec.power_policy s.st env.manual_policy) s

abbrev unless_booting : Option ℕ → M ℕ → M ℕ
unless_booting none m = m
unless_booting (some requeue) m = pure requeue

-- The run of the `Reconciler`, from the gates' verdicts.
unfoldable pub run : Env → Bool → Bool → ManualChange → BootEvent → M ℕ
run env found consistent change event s =
    let (requeue, s') = boot env event (manual_change env change s) in
    unless_booting requeue (manage env found consistent) s'

abbrev pub change_of : World → Status → ManualChange
change_of w st =
    detect_manual_change w.old st w.now (boot_timeout_of w st)
      w.spec.lifecycle.shutdown_timeout_seconds

abbrev pub tracked : World → Status → BootEvent × Status
tracked w st = track_boot (seen_off (change_of w st) st) w.now (boot_timeout_of w st)

-- From gate 4 on: the settings, what changed, and the run.
unfoldable pub launch : World → PowerChain → Bool → M ℕ
launch w chain agrees s =
    let (event, st) = tracked w s.st in
    run (env_of w chain s.st) (is_some w.node) agrees (change_of w s.st) event
      (record s { st = st })

-- From the power reading on.
unfoldable pub after_reading : World → PowerChain → M ℕ
unfolding launch
after_reading w chain s =
    let agrees = consistent w s.st in launch w chain agrees (gate_consistency w agrees s)

-- The interfaces' reading of the power state.
read_power : World → PowerChain → Result (Outcome PowerState) ChainError → M ℕ
read_power w chain (ok o) s =
    after_reading w chain
      (update (λ st. record st { power_state = o.value; interface_warnings = o.failures }) s)
read_power w chain (err e) s =
    (step (
          update (λ st. record st {
            interface_warnings = chain.unavailable;
            power_state = PowerState.unknown;
            message = some (cannot_read_power_state e);
          }))
        >> pure normal)
      s

-- From the identity results on: the interfaces of another machine are disabled.
with_identity : World → PowerChain → List Checked → M ℕ
unfolding read_power
with_identity w chain results s =
    let chain' = disable_mismatched chain results in
    read_power w chain' (Chain.power_state chain') (gate_identity w results s)

with_chain : World → Result PowerChain ChainError → M ℕ
unfolding with_identity
with_chain w (ok chain) s = with_identity w chain (identity_results w chain) s
with_chain w (err e) s =
    (step (
          update (λ st. record st {
            phase = Phase.error;
            message = some (build_failed e);
            power_state = PowerState.unknown;
            interface_warnings = [];
          }))
        >> pure slow)
      s

-- The status after gates 1 and 2.
abbrev pub gated : World → Status
gated w = gate_membership w (gate_node w w.old)

unfoldable pub reconcile : World → Result ℕ ApiError × Machine
unfolding with_chain
reconcile w =
    with_chain w (Chain.build w.build_driver w.op_timeout w.spec.power_interfaces)
      (record { st = gated w; log = [] })

-- ===== src/Machine/Reconcile/Reach.antt =====
-- The statuses that a machine can come to, by reconciles and by the decisions of the pools
-- (src/controller/node_power_management_config.rs), and the time of the phase in each of them.
use kube_hardware_autoscaler.Base.{
  ℕ, Bool, true, false, ◌≡◌, refl, ◌∙◌, inl, inr, ◌⊎◌, Bool-cases, Option, none, some, [], List,
  arith, is_some, not, ◌||◌,
}
use kube_hardware_autoscaler.Base.Time.{Time}
use kube_hardware_autoscaler.Crd.Enums.{Phase, PowerState, PowerTarget}
use kube_hardware_autoscaler.Crd.Status.{ScalingDecision}
use kube_hardware_autoscaler.Crd.Texts.{ChainError}
use kube_hardware_autoscaler.Drivers.Driver.{Result, ok, err}
use kube_hardware_autoscaler.Drivers.Chain
use kube_hardware_autoscaler.Drivers.Chain.{PowerChain, Outcome, Checked, disable_mismatched}
use kube_hardware_autoscaler.Machine.Rules.{ManualChange, managed_target}
use kube_hardware_autoscaler.Machine.Boot.{BootEvent, track_boot}
use kube_hardware_autoscaler.Machine.Run.{Env, ApiError, Machine}
use kube_hardware_autoscaler.Machine.Clock.{Status, is_untimed, has_clock, Timed}
use kube_hardware_autoscaler.Machine.On.Clock.{ensure_on-Timed}
use kube_hardware_autoscaler.Machine.Off.Clock.{ensure_off-Timed}
use kube_hardware_autoscaler.Machine.Events.{manual_change, boot}
use kube_hardware_autoscaler.Machine.Events.Clock.{manual_change-Timed, boot-Timed, observe-Timed}
use kube_hardware_autoscaler.Machine.Gates.{
  World, gate_node, gate_membership, gate_identity, gate_consistency, identity_results,
}
use kube_hardware_autoscaler.Machine.Reconcile.{
  env_of, seen_off, change_of, tracked, drive, refuse_acting, manage, unless_booting, run, launch,
  after_reading, read_power, with_identity, with_chain, gated, reconcile,
}

-- `NodePowerManagementConfigStatus::default`.
abbrev pub new_status : Status
new_status = record {
  phase = Phase.unknown;
  phase_since = none;
  power_state = PowerState.unknown;
  node_ready = false;
  pools = [];
  scaling_decision = none;
  conditions = [];
  interface_warnings = [];
  last_power_action = none;
  standby_since = none;
  standby_failed_at = none;
  sleep_support = none;
  manual_power_on = none;
  manual_power_off = none;
  powered_on_not_ready_since = none;
  boot_failure = none;
  forced_off_at = none;
  drain_failed_at = none;
  allocatable = none;
  node_labels = none;
  extended_resources = [];
  message = none;
}

-- What is stored after a reconcile: its status, unless it ended with an error.
abbrev stored : Result ℕ ApiError → Status → Status → Status
stored (ok requeue) new old = new
stored (err e) new old = old

unfoldable pub next_status : World → Status
next_status w = stored (reconcile w).0 (reconcile w).1.st w.old

-- Each reconcile reads and is answered whatever it is; between reconciles the pools write their
-- decisions.
pub data Reachable : Status → Type 0 where
  created : Reachable new_status
  reconciled : (w : World) → Reachable w.old → Reachable (next_status w)
  decided :
      (st : Status) (d : Option ScalingDecision)
      → Reachable st
      → Reachable (record st { scaling_decision = d })

module _ (env : Env) where
  drive-Timed : (t : Option PowerTarget) (s : Machine) → Timed s → Timed (drive env t s).1
  unfolding drive
  drive-Timed none s h = observe-Timed env s h
  drive-Timed (some PowerTarget.on) s h = ensure_on-Timed env s h
  drive-Timed (some PowerTarget.off) s h = ensure_off-Timed env s h

  manage-Timed : (found agrees : Bool) (s : Machine) → Timed s → Timed (manage env found agrees s).1
  unfolding manage
  manage-Timed found agrees s h = elim (Bool-cases (not found || not agrees)) [
    | inl e ↦ simp e (observe-Timed env (refuse_acting env found s) h)
    | inr e ↦ simp e (drive-Timed (managed_target env.spec.power_policy s.st env.manual_policy) s h)
  ]

  unless_booting-Timed :
      (requeue : Option ℕ) (found agrees : Bool) (s : Machine)
      → Timed s
      → Timed (unless_booting requeue (manage env found agrees) s).1
  unless_booting-Timed none found agrees s h = manage-Timed found agrees s h
  unless_booting-Timed (some requeue) found agrees s h = h

  run-Timed :
      (found agrees : Bool) (c : ManualChange) (e : BootEvent) (s : Machine)
      → Timed s
      → Timed (run env found agrees c e s).1
  unfolding run
  run-Timed found agrees c e s h =
      unless_booting-Timed (boot env e (manual_change env c s)).0 found agrees _
        (boot-Timed env e (manual_change env c s) (manual_change-Timed env c s h))

track_boot_clock : (st : Status) (now t : ℕ) → has_clock (track_boot st now t).1 ≡ has_clock st
unfolding track_boot
track_boot_clock st now t = ground arith

seen_off_clock : (c : ManualChange) (st : Status) → has_clock (seen_off c st) ≡ has_clock st
seen_off_clock c st = ground arith

launch-Timed :
    (w : World) (chain : PowerChain) (agrees : Bool) (s : Machine)
    → Timed s
    → Timed (launch w chain agrees s).1
unfolding launch
launch-Timed w chain agrees s h =
    run-Timed (env_of w chain s.st) (is_some w.node) agrees (change_of w s.st) (tracked w s.st).0 _
      (track_boot_clock (seen_off (change_of w s.st) s.st) w.now _
        ∙ seen_off_clock (change_of w s.st) s.st
        ∙ h)

gate_consistency_clock :
    (w : World) (agrees : Bool) (s : Machine)
    → has_clock (gate_consistency w agrees s).st ≡ has_clock s.st
unfolding gate_consistency
gate_consistency_clock w agrees s = ground arith

gate_identity_clock :
    (w : World) (rs : List Checked) (s : Machine)
    → has_clock (gate_identity w rs s).st ≡ has_clock s.st
unfolding gate_identity
gate_identity_clock w rs s = ground arith

gated_clock : (w : World) → has_clock (gated w) ≡ has_clock w.old
unfolding gate_node gate_membership
gated_clock w = ground arith

read_power-Timed :
    (w : World) (chain : PowerChain) (r : Result (Outcome PowerState) ChainError) (s : Machine)
    → Timed s
    → Timed (read_power w chain r s).1
unfolding read_power after_reading
read_power-Timed w chain (ok o) s h = launch-Timed w chain _ _ (gate_consistency_clock w _ _ ∙ h)
read_power-Timed w chain (err e) s h = h

with_chain-Timed :
    (w : World) (r : Result PowerChain ChainError) (s : Machine)
    → Timed s
    → Timed (with_chain w r s).1
unfolding with_chain with_identity
with_chain-Timed w (ok chain) s h =
    let chain' = disable_mismatched chain (identity_results w chain) in
    read_power-Timed w chain' (Chain.power_state chain') _ (gate_identity_clock w _ s ∙ h)
with_chain-Timed w (err e) s h = refl

reconcile-Timed : (w : World) → has_clock w.old ≡ true → Timed (reconcile w).1
unfolding reconcile
reconcile-Timed w h = with_chain-Timed w _ _ (gated_clock w ∙ h)

stored_clock :
    (r : Result ℕ ApiError) (new old : Status)
    → has_clock new ≡ true
    → has_clock old ≡ true
    → has_clock (stored r new old) ≡ true
stored_clock (ok requeue) new old h k = h
stored_clock (err e) new old h k = k

has_clock-Reachable : (st : Status) → Reachable st → has_clock st ≡ true
unfolding next_status
has_clock-Reachable _ created = refl
has_clock-Reachable _ (reconciled w r) =
    let h = has_clock-Reachable w.old r in
    stored_clock (reconcile w).0 (reconcile w).1.st w.old (reconcile-Timed w h) h
has_clock-Reachable _ (decided st d r) = has_clock-Reachable st r

since_of :
    (p : Phase) (since : Option Time)
    → (is_untimed p || is_some since) ≡ true
    → (is_untimed p ≡ true) ⊎ ((t : Time) × (since ≡ some t))
since_of p (some t) h = inr (t, refl)
since_of p none h = inl (ground (arith, h))

-- In every status that a machine can come to, whatever was read, asked and answered in the
-- reconciles before and whatever the pools decided between them: the time since which the machine
-- is in its phase is known, unless the phase is `Unknown` or `Error`, on which no timeout stands. So
-- no timeout of a boot, a drain or a shutdown ever counts as expired for want of a time.
pub Reachable-Since :
    (st : Status)
    → Reachable st
    → (is_untimed st.phase ≡ true) ⊎ ((t : Time) × (st.phase_since ≡ some t))
Reachable-Since st r = since_of st.phase st.phase_since (has_clock-Reachable st r)

-- ===== src/Machine/Reconcile/Overdue.antt =====
-- A boot that is overdue on a machine whose Node is not there (`reconcile`,
-- src/controller/node_power_management_config.rs).
use kube_hardware_autoscaler.Base.{
  ◌+◌, ◌*◌, leb, Bool, ◌&&◌, true, false, ◌≡◌, refl, ◌∙◌, inl, inr, none, some, List, ◌∷◌, ap,
  is_some, if◌then◌else◌, Bool-cases,
}
use kube_hardware_autoscaler.Base.Int.{ltb_ℤ, as_i64}
use kube_hardware_autoscaler.Base.Time.{nanos, num_seconds}
use kube_hardware_autoscaler.Crd.Enums.{Phase, PowerAction, PowerPolicy, PowerState}
use kube_hardware_autoscaler.Crd.Status.{
  Condition, PowerActionRecord, NodePowerManagementConfigStatus,
}
use kube_hardware_autoscaler.Drivers.Chain.{PowerChain}
use kube_hardware_autoscaler.Machine.Rules.{ManualChange, no_change, detect_manual_change}
use kube_hardware_autoscaler.Machine.Boot.{failed, track_boot, boot_failure_leaves_on, boot_since}
use kube_hardware_autoscaler.Machine.Boot.Failure.{track_boot-Due}
use kube_hardware_autoscaler.Machine.Run.{Env, Machine}
use kube_hardware_autoscaler.Machine.Commands.{issued, added}
use kube_hardware_autoscaler.Machine.Events.{manual_change, boot}
use kube_hardware_autoscaler.Machine.Events.Boot.{issued-boot_failed}
use kube_hardware_autoscaler.Machine.Gates.{
  World, consistent, announces_contradiction, gate_consistency,
}
use kube_hardware_autoscaler.Machine.Reconcile.{
  run, env_of, change_of, boot_timeout_of, manual_policy_of, seen_off, tracked, launch,
  after_reading,
}
use kube_hardware_autoscaler.Machine.Reconcile.Commands.{issued-gate_consistency}

abbrev Status : Type 0
Status = NodePowerManagementConfigStatus

-- The Node does not exist, yet a boot failure is due for a machine in PoweringOn that our own PowerOn
-- started: it has been booting longer than its timeout, no failure is noted, it is managed
-- automatically, and it is no dry run.
pub record BootOverdue (w : World) (st : Status) : Type 0 where
  pub no_node : w.node ≡ none
  pub real : w.dry_run ≡ false
  pub auto : w.spec.power_policy ≡ PowerPolicy.auto
  pub powering_on : w.old.phase ≡ Phase.powering_on
  pub phase : st.phase ≡ Phase.powering_on
  pub not_ready : st.node_ready ≡ false
  pub on : st.power_state ≡ PowerState.on
  pub awake : st.standby_since ≡ none
  pub no_failure : st.boot_failure ≡ none
  pub overdue :
      ltb_ℤ (as_i64 (boot_timeout_of w st)) (num_seconds w.now (boot_since st w.now)) ≡ true
  pub action : PowerActionRecord
  pub last : st.last_power_action ≡ some action
  pub is_on : action.action ≡ PowerAction.power_on
  pub ours : leb (boot_since st w.now) (action.time + 120 * nanos) ≡ true

and_false : (b : Bool) → (b && false) ≡ false
and_false true = refl
and_false false = refl

change_of_overdue : (w : World) (st : Status) → BootOverdue w st → change_of w st ≡ no_change
unfolding detect_manual_change
change_of_overdue w st b = rw (b.powering_on) (simp (b.on, b.not_ready, and_false))

-- The status where the failure is noted.
abbrev failing : World → Status → Status
failing w st = record st {
  powered_on_not_ready_since = some (boot_since st w.now);
  boot_failure = some (record { time = w.now; left_on = false });
}

seen_off_on : (c : ManualChange) (st : Status) → st.power_state ≡ PowerState.on → seen_off c st ≡ st
seen_off_on c st h = simp h

tracked_overdue :
    (w : World) (st : Status) → BootOverdue w st → tracked w st ≡ (failed, failing w st)
tracked_overdue w st b =
    let timeout = boot_timeout_of w st in
    ap (λ x. track_boot x w.now timeout) (seen_off_on (change_of w st) st b.on)
    ∙ track_boot-Due st w.now timeout b.not_ready (simp (b.on, b.awake, b.phase))
        (simp (b.no_failure), b.overdue)

failing_not_left_on :
    (w : World) (st : Status)
    → BootOverdue w st
    → boot_failure_leaves_on (failing w st) w.spec.power_policy (manual_policy_of w st) ≡ false
unfolding boot_failure_leaves_on
failing_not_left_on w st b = simp (b.auto, b.last, b.is_on, b.ours)

-- `run` on a failed boot is `boot`.
issued-run_failed :
    (env : Env) (found agrees : Bool) (s : Machine)
    → boot_failure_leaves_on s.st env.spec.power_policy env.manual_policy ≡ false
    → issued (run env found agrees no_change failed s).1
      ≡ added env PowerAction.power_off (issued s)
unfolding run manual_change boot
issued-run_failed env found agrees s h = issued-boot_failed env s h

launch_overdue :
    (w : World) (chain : PowerChain) (agrees : Bool) (s : Machine)
    → BootOverdue w s.st
    → issued (launch w chain agrees s).1 ≡ PowerAction.power_off ∷ issued s
unfolding launch
launch_overdue w chain agrees s b =
    let env = env_of w chain s.st in
    let found = is_some w.node in
    ap
      (λ c.
        issued (run env found agrees c (tracked w s.st).0 (record s { st = (tracked w s.st).1 })).1)
      (change_of_overdue w s.st b)
    ∙ ap (λ p. issued (run env found agrees no_change p.0 (record s { st = p.1 })).1)
        (tracked_overdue w s.st b)
    ∙ (issued-run_failed env found agrees (record s { st = failing w s.st })
          (failing_not_left_on w s.st b)
        ∙ ap (λ d. if d then issued s else PowerAction.power_off ∷ issued s) b.real)

-- The conditions do not matter.
overdue_conditions :
    (w : World) (st : Status) (cs : List Condition)
    → BootOverdue w st
    → BootOverdue w (record st { conditions = cs })
overdue_conditions w st cs b = record {
  no_node = b.no_node;
  real = b.real;
  auto = b.auto;
  powering_on = b.powering_on;
  phase = b.phase;
  not_ready = b.not_ready;
  on = b.on;
  awake = b.awake;
  no_failure = b.no_failure;
  overdue = b.overdue;
  action = b.action;
  last = b.last;
  is_on = b.is_on;
  ours = b.ours;
}

overdue_after :
    (w : World) (agrees : Bool) (s : Machine)
    → BootOverdue w s.st
    → BootOverdue w (gate_consistency w agrees s).st
unfolding gate_consistency
overdue_after w true s b = overdue_conditions w s.st _ b
overdue_after w false s b = elim (Bool-cases (announces_contradiction w.old)) [
  | inl e ↦ rw e (overdue_conditions w s.st _ b)
  | inr e ↦ rw e (overdue_conditions w s.st _ b)
]

-- A boot failure is acted on without a Node: where `BootOverdue` holds, exactly a PowerOff is issued.
-- `BootOverdue` says that the Node does not exist; that it is no dry run and the power policy is
-- Auto; that the stored status and the current one are in PoweringOn; that the machine reads On, is
-- not Ready, has no standby and no noted boot failure; that the boot has lasted longer than the boot
-- timeout, taken as an `i64`; and that our last power action is a PowerOn, at most 120 seconds before the boot began.
pub missing_node_powered_off :
    (w : World) (chain : PowerChain) (s : Machine)
    → BootOverdue w s.st
    → issued (after_reading w chain s).1 ≡ PowerAction.power_off ∷ issued s
unfolding after_reading
missing_node_powered_off w chain s b =
    let agrees = consistent w s.st in
    launch_overdue w chain agrees (gate_consistency w agrees s) (overdue_after w agrees s b)
    ∙ ap (λ l. PowerAction.power_off ∷ l) (issued-gate_consistency w agrees s)

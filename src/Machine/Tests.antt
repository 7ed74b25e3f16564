-- ===== src/Machine/Tests.antt =====
-- Runs of the machine controller (src/controller/node_power_management_config.rs).
use kube_hardware_autoscaler.Base.{
  ◌+◌, ◌≤◌, ◌≡◌, ◌≢◌, refl, ◌⊎◌, arith, true, false, none, some, [], ◌∷◌, length,
}
use kube_hardware_autoscaler.Base.Int.{pos, as_i64}
use kube_hardware_autoscaler.Base.Time.{num_seconds}
use kube_hardware_autoscaler.Crd.Enums.{Phase, PowerState, PowerAction, PowerOffMode}
use kube_hardware_autoscaler.Crd.Status.{NodePowerManagementConfigStatus, PowerActionRecord}
use kube_hardware_autoscaler.Crd.Effective.{effective_boot_timeout}
use kube_hardware_autoscaler.Machine.Rules.{powered_on, detect_manual_change, off_action}
use kube_hardware_autoscaler.Machine.Rules.Manual.{Justified, detect_manual_change-Justified}
use kube_hardware_autoscaler.Machine.Boot.{failed, track_boot}
use kube_hardware_autoscaler.Machine.Boot.Failure.{failure_time, boot_failure_reported_once}
use kube_hardware_autoscaler.Machine.Run.{Machine}
use kube_hardware_autoscaler.Machine.Commands.{issued}
use kube_hardware_autoscaler.Machine.Gates.{World}
use kube_hardware_autoscaler.Machine.On.{ensure_on}
use kube_hardware_autoscaler.Machine.On.Commands.{OnCommands, ensure_on-OnCommands}
use kube_hardware_autoscaler.Machine.Off.{drain, ensure_off}
use kube_hardware_autoscaler.Machine.Off.Commands.{OffCommands, ensure_off-OffCommands}
use kube_hardware_autoscaler.Machine.Off.Cordon.{CordonedFirst, ensure_off_cordons_first}
use kube_hardware_autoscaler.Machine.Off.Drain.{Evacuated, Forced, drain_safe}
use kube_hardware_autoscaler.Machine.Reconcile.{after_reading, reconcile}
use kube_hardware_autoscaler.Machine.Reconcile.Commands.{reconcile_one_command}
use kube_hardware_autoscaler.Machine.Reconcile.Safety.{Contradicts, contradiction_issues_nothing}
use kube_hardware_autoscaler.Machine.Reconcile.Missing.{BootOnly, missing_node_only_boot_failure}
use kube_hardware_autoscaler.Machine.Reconcile.Overdue.{BootOverdue, missing_node_powered_off}
use kube_hardware_autoscaler.Samples.{noon, chain, status_in, node, world, env, machine}

abbrev Status : Type 0
Status = NodePowerManagementConfigStatus

abbrev alive : World
alive = world (status_in Phase.on true) (some node)

reconcile_one_command_example : length (issued (reconcile alive).1) ≤ 1
reconcile_one_command_example = reconcile_one_command alive

abbrev rehearsal : World
rehearsal = record alive { dry_run = true }

-- The interface reads Off, the kubelet renewed its lease five seconds ago.
abbrev contradicted : Status
contradicted = record (status_in Phase.on true) { power_state = PowerState.off }

contradicted-Contradicts : Contradicts alive contradicted
contradicted-Contradicts = record {
  off = refl;
  ready = refl;
  age = pos 5;
  lease = refl;
  fresh = refl;
  not_ours = λ a h t. cc;
}

contradiction_issues_nothing_example :
    issued (after_reading alive chain (machine contradicted)).1 ≡ []
contradiction_issues_nothing_example =
    contradiction_issues_nothing alive chain (machine contradicted) contradicted-Contradicts

abbrev gone : World
gone = world (status_in Phase.powering_on false) none

missing_node_only_boot_failure_example : BootOnly [] (reconcile gone).1
missing_node_only_boot_failure_example = missing_node_only_boot_failure gone refl

-- Our PowerOn is a day old, and the machine has been booting ever since.
abbrev our_power_on : PowerActionRecord
our_power_on = record {
  action = PowerAction.power_on;
  time = 0;
  succeeded = true;
  via = some "redfish";
}

abbrev overdue : Status
overdue = record (status_in Phase.powering_on false) {
  powered_on_not_ready_since = some 10;
  last_power_action = some our_power_on;
}

overdue-BootOverdue : BootOverdue gone overdue
unfolding num_seconds as_i64 effective_boot_timeout
overdue-BootOverdue = record {
  no_node = refl;
  real = refl;
  auto = refl;
  powering_on = refl;
  phase = refl;
  not_ready = refl;
  on = refl;
  awake = refl;
  no_failure = refl;
  overdue = refl;
  action = our_power_on;
  last = refl;
  is_on = refl;
  ours = refl;
}

missing_node_powered_off_example :
    issued (after_reading gone chain (machine overdue)).1 ≡ PowerAction.power_off ∷ []
missing_node_powered_off_example =
    missing_node_powered_off gone chain (machine overdue) overdue-BootOverdue

abbrev draining : Machine
draining = machine (status_in Phase.draining true)

drain_safe_example :
    (issued (drain env draining).1 ≡ []) ⊎ (Evacuated env.pods ⊎ Forced env draining)
drain_safe_example = drain_safe env draining

ensure_on-OnCommands_example : OnCommands env draining (ensure_on env draining).1
ensure_on-OnCommands_example = ensure_on-OnCommands env draining

ensure_off-OffCommands_example : OffCommands env draining (ensure_off env draining).1
ensure_off-OffCommands_example = ensure_off-OffCommands env draining

abbrev running : Machine
running = machine (status_in Phase.on true)

ensure_off_cordons_first_example :
    (issued (ensure_off env running).1 ≡ []) × CordonedFirst env running (ensure_off env running).1
ensure_off_cordons_first_example = ensure_off_cordons_first env running refl

abbrev by_hand : Machine
by_hand = machine (record (status_in Phase.on true) {
  manual_power_on = some (record { time = 0; policy = none });
})

-- The machine was off; now it is on, a day after our PowerOn.
by_a_person : detect_manual_change (status_in Phase.off false) overdue noon 600 300 ≡ powered_on
unfolding detect_manual_change num_seconds as_i64
by_a_person = refl

detect_manual_change-Justified_example :
    Justified
      (status_in Phase.off false)
      overdue
      noon
      600
      300
      (detect_manual_change (status_in Phase.off false) overdue noon 600 300)
detect_manual_change-Justified_example =
    detect_manual_change-Justified (status_in Phase.off false) overdue noon 600 300

sleeps : off_action PowerOffMode.auto none (some true) noon ≡ PowerAction.standby
unfolding off_action
sleeps = refl

reports : (track_boot overdue noon 600).0 ≡ failed
unfolding track_boot num_seconds as_i64
reports = refl

abbrev noted : Status
noted = record overdue { boot_failure = some (record { time = noon; left_on = true }) }

same_boot :
    noted.powered_on_not_ready_since ≡ (track_boot overdue noon 600).1.powered_on_not_ready_since
unfolding track_boot num_seconds as_i64
same_boot = refl

-- Acting on the failure has left the machine on.
same_failure :
    failure_time noted.boot_failure ≡ failure_time (track_boot overdue noon 600).1.boot_failure
unfolding track_boot num_seconds as_i64
same_failure = refl

boot_failure_reported_once_example : (track_boot noted (noon + 5) 600).0 ≢ failed
boot_failure_reported_once_example =
    boot_failure_reported_once overdue noted noon (noon + 5) 600 600 (omega arith) reports same_boot
      same_failure

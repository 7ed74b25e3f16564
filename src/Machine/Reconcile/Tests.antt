-- ===== src/Machine/Reconcile/Tests.antt =====
-- The first reconciles of a machine (src/controller/node_power_management_config.rs).
use kube_hardware_autoscaler.Base.{◌≡◌, ◌⊎◌, true, some}
use kube_hardware_autoscaler.Base.Time.{Time}
use kube_hardware_autoscaler.Crd.Enums.{PowerTarget}
use kube_hardware_autoscaler.Machine.Clock.{Status, is_untimed}
use kube_hardware_autoscaler.Machine.Gates.{World}
use kube_hardware_autoscaler.Machine.Reconcile.Reach.{
  new_status, next_status, Reachable, created, reconciled, decided, Reachable-Since,
}
use kube_hardware_autoscaler.Samples.{noon, world, node}

abbrev first : World
first = world new_status (some node)

-- After the first reconcile the pool decides to turn the machine off; the second one sees that.
abbrev chosen : Status
chosen = record (next_status first) {
  scaling_decision = some (record { pool = "pool"; target = PowerTarget.off; time = noon });
}

abbrev second : World
second = world chosen (some node)

chosen-Reachable : Reachable chosen
chosen-Reachable =
    decided (next_status first)
      (some (record { pool = "pool"; target = PowerTarget.off; time = noon }))
      (reconciled first created)

Reachable-Since_example :
    (is_untimed (next_status second).phase ≡ true)
    ⊎ ((t : Time) × ((next_status second).phase_since ≡ some t))
Reachable-Since_example = Reachable-Since (next_status second) (reconciled second chosen-Reachable)

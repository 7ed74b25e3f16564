-- ===== src/Machine/Sleep.antt =====
-- Sleeping instead of shutting down: the sleep probe, which action takes the machine offline, and
-- giving standby up (`Reconciler`, src/controller/node_power_management_config.rs).
use Prim.Native.String.{◌++◌ as append}
use kube_hardware_autoscaler.Base.{String, Bool, false, Option, none, some, str_eq, if◌then◌else◌}
use kube_hardware_autoscaler.Crd.Enums.{PowerAction}
use kube_hardware_autoscaler.Crd.Status.{NodePowerManagementConfigStatus, SleepSupport}
use kube_hardware_autoscaler.Cluster.{Node}
use kube_hardware_autoscaler.Drivers.Driver.{Result, ok, err}
use kube_hardware_autoscaler.Machine.Rules
use kube_hardware_autoscaler.Machine.Run.{
  Env, Machine, Probe, pending, done, failed, event, emit, update,
}

abbrev Status : Type 0
Status = NodePowerManagementConfigStatus

abbrev non_empty : Option String → Option String
non_empty none = none
non_empty (some id) = if str_eq id "" then none else some id

abbrev node_boot_id : Option Node → Option String
node_boot_id none = none
node_boot_id (some n) = non_empty n.boot_id

-- The probe's result, if it was made in this boot.
abbrev same_boot : Option SleepSupport → Option String → Option Bool
same_boot none boot = none
same_boot (some s) none = none
same_boot (some s) (some boot) = if str_eq s.boot_id boot then some s.s3 else none

module _ (env : Env) where
  abbrev pub boot_id : Option String
  boot_id = node_boot_id env.node

  unfoldable pub s3_known : Status → Option Bool
  s3_known st = same_boot st.sleep_support boot_id

  -- `Reconciler::off_action`.
  unfoldable pub off_action : Status → PowerAction
  off_action st =
      Rules.off_action env.spec.lifecycle.power_off_mode st.standby_failed_at (s3_known st) env.now

  abbrev store_probe : String → Bool → String → Machine → Option Bool × Machine
  store_probe boot s3 detail s = (
    some s3,
    update
        (λ st. record st {
          sleep_support = some (record { boot_id = boot; s3 = s3; detail = detail });
        })
        (emit (event "SleepProbe") s),
  )

  read_probe : Result Probe String → String → Machine → Option Bool × Machine
  read_probe (ok pending) boot s = (none, s)
  read_probe (ok (done b s3 mem_sleep)) boot s =
      if str_eq b boot then store_probe b s3 mem_sleep s else (none, s)
  read_probe (ok (failed why)) boot s = store_probe boot false (append "probe failed: " why) s
  read_probe (err why) boot s = store_probe boot false (append "probe failed: " why) s

  probe_boot : Option String → Machine → Option Bool × Machine
  unfolding read_probe
  probe_boot none s = (none, s)
  probe_boot (some boot) s = read_probe env.probe boot s

  -- `Reconciler::probe_sleep`: `none` while the probe is pending.
  unfoldable pub probe_sleep : Machine → Option Bool × Machine
  unfolding probe_boot
  probe_sleep s = elim (s3_known s.st) [
    | some known ↦ (some known, s)
    | none ↦ probe_boot boot_id s
  ]

  -- `Reconciler::standby_failed`: the machine is shut down instead until the backoff expires.
  unfoldable pub standby_failed : Machine → Machine
  standby_failed s =
      emit (event "StandbyFailed") (update (λ st. record st { standby_failed_at = some env.now }) s)

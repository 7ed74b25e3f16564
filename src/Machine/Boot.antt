-- ===== src/Machine/Boot.antt =====
-- Boot failures (src/controller/node_power_management_config.rs): how long a machine has been
-- powered on without its Node being Ready, and what becomes of it.
pub mod Failure
use kube_hardware_autoscaler.Base.{
  ℕ, ◌+◌, ◌*◌, min, Bool, true, false, ◌&&◌, ◌||◌, not, Option, none, some, leb, ltb, is_some,
  is_some_and, is_none_or, unwrap_or, if◌then◌else◌,
}
use kube_hardware_autoscaler.Base.Int.{as_i64, ltb_ℤ}
use kube_hardware_autoscaler.Base.Time.{Time, nanos, num_seconds}
use kube_hardware_autoscaler.Crd.Enums.{
  Phase, PowerState, PowerPolicy, ManualPowerOnPolicy, reads_on, reads_off, is_auto, is_leave_on,
}
use kube_hardware_autoscaler.Crd.Status.{NodePowerManagementConfigStatus, BootFailure}
use kube_hardware_autoscaler.Machine.Rules.{is_power_on}

abbrev Status : Type 0
Status = NodePowerManagementConfigStatus

pub data BootEvent : Type 0 where
  no_event failed recovered : BootEvent

-- Phases in which a machine that is on counts as booting.
abbrev pub may_boot : Phase → Bool
may_boot Phase.powering_off = false
may_boot Phase.draining = false
may_boot Phase.standby = false
may_boot _ = true

abbrev pub is_booting : Status → Bool
is_booting st = reads_on st.power_state && (not (is_some st.standby_since) && may_boot st.phase)

-- First seen booting: since our own PowerOn if one started this phase.
abbrev boot_start : Phase → Option Time → Time → Time
boot_start Phase.powering_on phase_since now = min (unwrap_or phase_since now) now
boot_start Phase.boot_failed phase_since now = min (unwrap_or phase_since now) now
boot_start _ phase_since now = now

abbrev pub boot_since : Status → Time → Time
boot_since st now = unwrap_or st.powered_on_not_ready_since (boot_start st.phase st.phase_since now)

-- The machine is booting, since `since`.
track_booting : Status → Time → ℕ → Time → BootEvent × Status
track_booting st now boot_timeout_secs since =
    let seen = record st { powered_on_not_ready_since = some since } in
    if is_none_or st.boot_failure (λ f. ltb f.time since)
      && ltb_ℤ (as_i64 boot_timeout_secs) (num_seconds now since)
    then (
      BootEvent.failed,
      record seen { boot_failure = some (record { time = now; left_on = false }) },
    )
    else (BootEvent.no_event, seen)

unfoldable pub track_boot : Status → Time → ℕ → BootEvent × Status
unfolding track_booting
track_boot st now boot_timeout_secs =
    if st.node_ready
    then (
      if is_some st.boot_failure then BootEvent.recovered else BootEvent.no_event,
      record st { powered_on_not_ready_since = none; boot_failure = none },
    )
    else if is_booting st
    then track_booting st now boot_timeout_secs (boot_since st now)
    else if reads_off st.power_state
    then (BootEvent.no_event, record st { powered_on_not_ready_since = none })
    else (BootEvent.no_event, st)

unfoldable pub failure_is_current : Status → Bool
failure_is_current st = elim st.boot_failure [
  | none ↦ false
  | some f ↦ is_some_and st.powered_on_not_ready_since (λ since. leb since f.time)
]

-- `a.time >= since - 120s`: the last action is a PowerOn of ours that explains this boot.
abbrev pub boot_is_ours : Status → Bool
boot_is_ours st = is_some_and st.last_power_action (λ a.
    is_power_on a.action
    && is_none_or st.powered_on_not_ready_since (λ s. leb s (a.time + 120 * nanos)))

unfoldable pub boot_failure_leaves_on : Status → PowerPolicy → ManualPowerOnPolicy → Bool
boot_failure_leaves_on st power_policy policy =
    if not (is_auto power_policy) then true else not (boot_is_ours st) && is_leave_on policy

-- ===== src/Machine/Rules.antt =====
-- The machine controller's decisions that only read the status (src/controller/
-- node_power_management_config.rs). Times are nanoseconds, timeouts `u64` seconds.
pub mod Manual
use kube_hardware_autoscaler.Base.{
  ℕ, ◌+◌, ◌*◌, String, Bool, true, false, ◌&&◌, ◌||◌, not, Option, none, some, leb, contains,
  is_some, is_some_and, is_none_or, filter_option, if◌then◌else◌,
}
use kube_hardware_autoscaler.Base.Int.{ℤ, pos, as_i64, ltb_ℤ, leb_ℤ, ◌+ℤ◌}
use kube_hardware_autoscaler.Base.Time.{Time, num_seconds}
use kube_hardware_autoscaler.Crd.Enums.{
  Phase, PowerState, PowerTarget, PowerPolicy, PowerOffMode, ManualPowerOnPolicy,
  PowerOnFailurePolicy, PowerAction, action_eq, reads_on, reads_off, targets_on, is_auto,
  is_leave_on,
}
use kube_hardware_autoscaler.Crd.Status.{NodePowerManagementConfigStatus}

abbrev Status : Type 0
Status = NodePowerManagementConfigStatus

abbrev pub retry_action_after : ℤ
retry_action_after = pos 90

abbrev pub standby_settle_secs : ℤ
standby_settle_secs = pos 240

abbrev pub standby_backoff_secs : ℤ
standby_backoff_secs = pos 86400

abbrev pub probe_wait_secs : ℤ
probe_wait_secs = pos 60

abbrev pub spontaneous_wake_secs : ℤ
spontaneous_wake_secs = pos 300

abbrev pub off_grace_secs : ℤ
off_grace_secs = pos 90

abbrev pub lease_fresh_secs : ℤ
lease_fresh_secs = pos 15

unfoldable pub desired_target : PowerPolicy → Status → Option PowerTarget
desired_target PowerPolicy.always_on st = some PowerTarget.on
desired_target PowerPolicy.always_off st = some PowerTarget.off
desired_target PowerPolicy.auto st = elim st.scaling_decision [
  | none ↦ none
  | some d ↦ if contains st.pools d.pool then some d.target else none
]

pub data ManualChange : Type 0 where
  no_change powered_on powered_off : ManualChange

-- Whether the last power action is one of `actions` and at most `limit` seconds old.
abbrev pub acted_within : Status → Time → (PowerAction → Bool) → ℤ → Bool
acted_within st now actions limit =
    is_some_and st.last_power_action (λ a. actions a.action && leb_ℤ (num_seconds now a.time) limit)

abbrev pub takes_off : PowerAction → Bool
takes_off PowerAction.power_on = false
takes_off _ = true

abbrev pub is_power_on : PowerAction → Bool
is_power_on PowerAction.power_on = true
is_power_on _ = false

abbrev pub our_on : Status → Time → ℕ → Bool
our_on st now boot_timeout_secs = acted_within st now is_power_on (as_i64 boot_timeout_secs)

abbrev pub our_off : Status → Time → ℕ → Bool
our_off st now shutdown_timeout_secs =
    acted_within st now takes_off (as_i64 shutdown_timeout_secs +ℤ pos 300)

-- The tests of `detect_manual_change` for each phase of the previous status.
abbrev change_from : Phase → Bool → Bool → Bool → ManualChange
change_from Phase.off on_change woke off_change =
    if on_change then ManualChange.powered_on else ManualChange.no_change
change_from Phase.standby on_change woke off_change =
    if woke then ManualChange.powered_on else ManualChange.no_change
change_from Phase.on on_change woke off_change =
    if off_change then ManualChange.powered_off else ManualChange.no_change
change_from Phase.powering_on on_change woke off_change =
    if off_change then ManualChange.powered_off else ManualChange.no_change
change_from Phase.boot_failed on_change woke off_change =
    if off_change then ManualChange.powered_off else ManualChange.no_change
change_from _ on_change woke off_change = ManualChange.no_change

unfoldable pub detect_manual_change : Status → Status → Time → ℕ → ℕ → ManualChange
detect_manual_change old st now boot_timeout_secs shutdown_timeout_secs =
    let ours_on = our_on st now boot_timeout_secs in
    let ours_off = our_off st now shutdown_timeout_secs in
    let on_now = reads_on st.power_state || st.node_ready in
    let off_now = reads_off st.power_state && not st.node_ready in
    change_from old.phase (on_now && not ours_on)
      (st.node_ready
        && (not ours_on
            && is_none_or old.standby_since (λ t. ltb_ℤ spontaneous_wake_secs (num_seconds now t))))
      (reads_on old.power_state && (off_now && not ours_off))

pub data PowerOnAttempt : Type 0 where
  ongoing expired : PowerOnAttempt

unfoldable pub power_on_attempt : Status → Time → PowerOnFailurePolicy → ℕ → PowerOnAttempt
power_on_attempt st now PowerOnFailurePolicy.retry timeout_seconds = PowerOnAttempt.ongoing
power_on_attempt st now PowerOnFailurePolicy.release timeout_seconds =
    if st.node_ready
    then PowerOnAttempt.ongoing
    else elim (filter_option st.scaling_decision (λ d. targets_on d.target)) [
      | none ↦ PowerOnAttempt.ongoing
      | some d ↦
          if reads_on st.power_state && not (is_some st.standby_since)
          then PowerOnAttempt.ongoing
          else if ltb_ℤ (as_i64 timeout_seconds) (num_seconds now d.time)
          then PowerOnAttempt.expired
          else PowerOnAttempt.ongoing
    ]

unfoldable pub managed_target : PowerPolicy → Status → ManualPowerOnPolicy → Option PowerTarget
managed_target policy st manual =
    if is_auto policy && (is_some st.manual_power_on && is_leave_on manual)
    then none
    else desired_target policy st

-- Whether standby failed on the machine within the backoff.
abbrev pub standby_broken : Option Time → Time → Bool
standby_broken standby_failed_at now =
    is_some_and standby_failed_at (λ t. ltb_ℤ (num_seconds now t) standby_backoff_secs)

unfoldable pub off_action : PowerOffMode → Option Time → Option Bool → Time → PowerAction
off_action PowerOffMode.shutdown standby_failed_at s3 now = PowerAction.power_off
off_action PowerOffMode.standby standby_failed_at s3 now =
    if standby_broken standby_failed_at now then PowerAction.power_off else PowerAction.standby
off_action PowerOffMode.auto standby_failed_at s3 now =
    if standby_broken standby_failed_at now
    then PowerAction.power_off
    else if is_some_and s3 (λ b. b)
    then PowerAction.standby
    else PowerAction.power_off

abbrev is_standby : Phase → Bool
is_standby Phase.standby = true
is_standby _ = false

unfoldable pub s3_capable : Status → Time → Bool
s3_capable st now =
    is_standby st.phase
    || (not (standby_broken st.standby_failed_at now) && is_some_and st.sleep_support (λ s. s.s3))

abbrev going_down : Phase → Bool
going_down Phase.powering_off = true
going_down Phase.standby = true
going_down _ = false

unfoldable pub in_standby : Phase → Bool → Bool → Bool
in_standby phase standby_requested node_ready =
    standby_requested && (going_down phase && not node_ready)

unfoldable pub power_state_consistent : PowerState → Bool → Option ℤ → Option ℤ → Bool
power_state_consistent reported node_ready lease_age_secs since_our_off_action_secs = not (
    reads_off reported
    && (node_ready
        && is_some_and lease_age_secs (λ a. leb_ℤ a lease_fresh_secs)
        && not (is_some_and since_our_off_action_secs (λ s. leb_ℤ s off_grace_secs))))

-- ===== src/Machine/Events.antt =====
-- Manual power changes, boot failures and plain observation (`manual_change`, `boot` and `observe`,
-- src/controller/node_power_management_config.rs).
pub mod Clock
pub mod Commands
pub mod Boot
use kube_hardware_autoscaler.Base.{
  ℕ, ◌/◌, Bool, true, false, ◌&&◌, ◌||◌, not, Option, none, some, is_some, is_some_and,
  if◌then◌else◌,
}
use kube_hardware_autoscaler.Base.Int.{as_i64, ltb_ℤ, min_ℤ}
use kube_hardware_autoscaler.Base.Time.{num_seconds}
use kube_hardware_autoscaler.Crd.Enums.{Phase, PowerState, PowerAction, reads_on}
use kube_hardware_autoscaler.Crd.Texts.{boot_failed}
use kube_hardware_autoscaler.Crd.Status.{NodePowerManagementConfigStatus, BootFailure}
use kube_hardware_autoscaler.Machine.Rules.{
  ManualChange, no_change, powered_on, powered_off, standby_settle_secs, in_standby,
}
use kube_hardware_autoscaler.Machine.Boot.{
  BootEvent, no_event, failed, recovered, failure_is_current, boot_failure_leaves_on,
}
use kube_hardware_autoscaler.Machine.Run.{
  Env, Machine, emit, update, say, event, set_phase, act, announce_off,
}
use kube_hardware_autoscaler.Machine.On.{fast, slow}
use kube_hardware_autoscaler.Machine.Off.{forced_recently}

abbrev Status : Type 0
Status = NodePowerManagementConfigStatus

module _ (env : Env) where
  abbrev forget_left_on : Option BootFailure → Option BootFailure
  forget_left_on none = none
  forget_left_on (some f) = if f.left_on then none else some f

  -- `Reconciler::manual_change`.
  unfoldable pub manual_change : ManualChange → Machine → Machine
  manual_change no_change s = s
  manual_change powered_on s = emit (event "ManualPowerOn") (
      update
        (λ st. record st {
          manual_power_on = some (record { time = env.now; policy = some env.manual_policy });
          scaling_decision = none;
          standby_since = none;
          boot_failure = none;
        })
        s)
  manual_change powered_off s = emit (event "ManualPowerOff") (
      update
        (λ st. record st {
          manual_power_on = none;
          manual_power_off = some (record { time = env.now; policy = none });
          scaling_decision = none;
          boot_failure = forget_left_on st.boot_failure;
        })
        s)

  abbrev set_left_on : Bool → Option BootFailure → Option BootFailure
  set_left_on leave none = none
  set_left_on leave (some f) = some (record f { left_on = leave })

  note_failure : Bool → Machine → Machine
  note_failure leave s = emit (event "BootFailed") (
      update
        (λ st. set_phase env Phase.boot_failed (record st {
          boot_failure = set_left_on leave st.boot_failure;
          scaling_decision = none;
          message = some (boot_failed env.spec.node_name (env.boot_timeout / 60));
        }))
        s)

  -- A boot that has just failed: the machine is powered off, unless it is to be left on.
  fail_boot : Machine → Machine
  unfolding note_failure
  fail_boot s =
      let leave = boot_failure_leaves_on s.st env.spec.power_policy env.manual_policy in
      let noted = note_failure leave s in
      if leave then noted else (act env PowerAction.power_off (announce_off env noted)).1

  -- The graceful request may be ignored: past the settle time the power is cut.
  abbrev pub must_force : BootFailure → Status → Bool
  must_force failure st =
      not failure.left_on
      && (ltb_ℤ (min_ℤ (as_i64 env.spec.lifecycle.shutdown_timeout_seconds) standby_settle_secs)
            (num_seconds env.now failure.time)
          && not (forced_recently env st))

  force_failed : Machine → Machine
  force_failed s =
      let (done, s') = act env PowerAction.force_off s in
      update (λ st. record st { forced_off_at = some env.now }) s'

  -- Still powered and not Ready after a boot failure.
  keep_failing : BootFailure → Machine → Machine
  unfolding force_failed
  keep_failing failure s =
      let s' = update (set_phase env Phase.boot_failed) s in
      if must_force failure s'.st then force_failed s' else s'

  abbrev pub still_failing : Status → Bool
  still_failing st = not st.node_ready && (reads_on st.power_state && failure_is_current st)

  after_failure : Option BootFailure → Machine → Option ℕ × Machine
  unfolding keep_failing
  after_failure none s = (none, s)
  after_failure (some failure) s =
      if still_failing s.st then (some fast, keep_failing failure s) else (none, s)

  -- `Reconciler::boot`: a requeue time where the normal state machine is skipped.
  unfoldable pub boot : BootEvent → Machine → Option ℕ × Machine
  unfolding fail_boot after_failure
  boot recovered s = (none, emit (event "BootRecovered") s)
  boot failed s = (some fast, fail_boot s)
  boot no_event s = after_failure s.st.boot_failure s

  abbrev observed_phase : PowerState → Bool → Phase
  observed_phase PowerState.on true = Phase.on
  observed_phase PowerState.on false = Phase.powering_on
  observed_phase PowerState.off ready = Phase.off
  observed_phase PowerState.unknown ready = Phase.unknown

  -- `Reconciler::observe`.
  unfoldable pub observe : Machine → ℕ × Machine
  observe s =
      if in_standby s.st.phase (is_some s.st.standby_since) s.st.node_ready
      then (slow, s)
      else (slow, update (set_phase env (observed_phase s.st.power_state s.st.node_ready)) s)

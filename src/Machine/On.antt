-- ===== src/Machine/On.antt =====
-- Driving a machine on (`ensure_on` and `release_failed_power_on`,
-- src/controller/node_power_management_config.rs). Results are seconds to the next reconcile.
pub mod Commands
pub mod Clock
use kube_hardware_autoscaler.Base.{
  ℕ, Bool, true, false, ◌&&◌, ◌||◌, not, Option, none, some, is_some, if◌then◌else◌,
}
use kube_hardware_autoscaler.Base.Int.{as_i64, ltb_ℤ, leb_ℤ}
use kube_hardware_autoscaler.Crd.Enums.{
  Phase, PowerAction, phase_eq, reads_on, reads_off, is_auto_mode,
}
use kube_hardware_autoscaler.Crd.Texts.{no_wake_forced_off, waiting_for_shutdown, not_powered_on}
use kube_hardware_autoscaler.Crd.Status.{NodePowerManagementConfigStatus}
use kube_hardware_autoscaler.Drivers.Driver.{ok, err}
use kube_hardware_autoscaler.Machine.Rules.{
  retry_action_after, power_on_attempt, PowerOnAttempt, expired, ongoing,
}
use kube_hardware_autoscaler.Machine.Run.{
  Env, Machine, M, ◌>>=◌, ◌>>◌, pure, lift, step, emit, update, say, event, cancel_suspend,
  set_phase, in_phase_for, since_last_action, act, uncordon_if_ours, clear_marker, announce_off,
}
use kube_hardware_autoscaler.Machine.Sleep.{probe_sleep, standby_failed}

abbrev Status : Type 0
Status = NodePowerManagementConfigStatus

abbrev pub fast : ℕ
fast = 10

abbrev pub normal : ℕ
normal = 30

abbrev pub slow : ℕ
slow = 60

module _ (env : Env) where
  -- The power-on has failed: the decision is dropped and a boot failure recorded.
  abbrev give_up_power_on : Status → Status
  give_up_power_on st = record st {
    standby_failed_at = if is_some st.standby_since then some env.now else st.standby_failed_at;
    boot_failure = some (record { time = env.now; left_on = false });
    scaling_decision = none;
    standby_since = none;
    message = some (not_powered_on env.spec.node_name env.power_on_timeout);
  }

  -- The machine reads as on: the power is cut.
  release_running : Machine → Machine
  release_running s =
      let marked =
        update (λ st. record st { powered_on_not_ready_since = some env.now })
          (announce_off env s) in
      let (done, s') = act env PowerAction.force_off marked in
      update (λ st. set_phase env Phase.boot_failed (record st { forced_off_at = some env.now })) s'

  -- `Reconciler::release_failed_power_on`.
  unfoldable pub release_failed_power_on : Machine → Machine
  unfolding release_running
  release_failed_power_on s =
      let s' = emit (event "PowerOnFailed") (update give_up_power_on s) in
      if reads_on s'.st.power_state then release_running s' else update (set_phase env Phase.off) s'

  abbrev settle_on : Status → Status
  settle_on st = record (set_phase env Phase.on st) {
    forced_off_at = none;
    standby_since = none;
    message = none;
  }

  arrive_on : Machine → Machine
  arrive_on s =
      let s' = if phase_eq s.st.phase Phase.on then s else emit (event "NodeOnline") s in
      let s'' = update settle_on s' in
      if is_auto_mode env.spec.lifecycle.power_off_mode then (probe_sleep env s'').1 else s''

  -- The machine is on and its Node is Ready.
  ensure_on_ready : M ℕ
  unfolding arrive_on
  ensure_on_ready = do
    uncordon_if_ours env env.node
    clear_marker env env.node
    step arrive_on
    pure slow

  -- Sends PowerOn, and enters `PoweringOn` or `Error`.
  power_on_now : Machine → Machine
  power_on_now s =
      let (done, s') = act env PowerAction.power_on s in
      update (set_phase env (if done then Phase.powering_on else Phase.error)) s'

  -- A machine that does not wake from standby is forced off for a cold boot.
  force_cold_boot : Machine → Machine
  force_cold_boot s =
      let (done, s') = act env PowerAction.force_off (standby_failed env s) in
      update (λ st. say (no_wake_forced_off env.boot_timeout) (set_phase env Phase.error st)) s'

  while_powering_on : Machine → Machine
  unfolding force_cold_boot
  while_powering_on s =
      if ltb_ℤ (as_i64 env.boot_timeout) (in_phase_for env s.st) && is_some s.st.standby_since
      then force_cold_boot s
      else if (reads_off s.st.power_state || is_some s.st.standby_since)
          && ltb_ℤ retry_action_after (since_last_action env PowerAction.power_on s.st)
      then (act env PowerAction.power_on s).1
      else s

  -- Powered but not Ready yet: booting, or an aborted scale down.
  take_powered : M ℕ
  take_powered = do
    uncordon_if_ours env env.node
    step (update (set_phase env Phase.powering_on))
    pure fast

  -- The last two arms of the `match`: the machine is on and not in standby, or PowerOn is sent.
  power_on_otherwise : M ℕ
  unfolding power_on_now take_powered
  power_on_otherwise s =
      if reads_on s.st.power_state && not (is_some s.st.standby_since)
      then take_powered s
      else if phase_eq s.st.phase Phase.error
          && ltb_ℤ (since_last_action env PowerAction.power_on s.st) retry_action_after
      then pure normal s
      else (step power_on_now >> pure fast) s

  call_off_standby : M ℕ
  unfolding power_on_now
  call_off_standby = step (λ s. power_on_now (emit cancel_suspend s)) >> pure fast

  -- The arms of the `match` for `PoweringOff` and `Standby`.
  while_going_down : M ℕ
  unfolding call_off_standby power_on_otherwise
  while_going_down s =
      if is_some s.st.standby_since
      then call_off_standby s
      else if phase_eq s.st.phase Phase.powering_off
          && (reads_on s.st.power_state
              && leb_ℤ (in_phase_for env s.st) (as_i64 env.spec.lifecycle.shutdown_timeout_seconds))
      then (step (update (say waiting_for_shutdown)) >> pure fast) s
      else power_on_otherwise s

  by_phase : Phase → M ℕ
  unfolding while_powering_on while_going_down power_on_otherwise
  by_phase Phase.powering_on = step while_powering_on >> pure fast
  by_phase Phase.powering_off = while_going_down
  by_phase Phase.standby = while_going_down
  by_phase _ = power_on_otherwise

  abbrev is_expired : PowerOnAttempt → Bool
  is_expired expired = true
  is_expired ongoing = false

  -- `Reconciler::ensure_on`.
  unfoldable pub ensure_on : M ℕ
  unfolding ensure_on_ready by_phase
  ensure_on s =
      if reads_on s.st.power_state && s.st.node_ready
      then ensure_on_ready s
      else if is_expired
          (power_on_attempt s.st env.now env.power_on_failure_policy env.power_on_timeout)
      then (step release_failed_power_on >> pure fast) s
      else by_phase s.st.phase s

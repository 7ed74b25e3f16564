-- ===== src/Machine/Off/Tests.antt =====
-- A machine that does not go down (src/controller/node_power_management_config.rs).
use kube_hardware_autoscaler.Base.{◌+◌, ◌*◌, ◌≡◌, ◌≢◌, refl, true, false, some, [], ◌∷◌}
use kube_hardware_autoscaler.Base.Int.{pos, as_i64, ltb_ℤ}
use kube_hardware_autoscaler.Base.Time.{nanos, num_seconds}
use kube_hardware_autoscaler.Crd.Enums.{Phase, PowerAction}
use kube_hardware_autoscaler.Machine.Rules.{in_standby}
use kube_hardware_autoscaler.Machine.Run.{Env, Machine, set_phase}
use kube_hardware_autoscaler.Machine.Commands.{issued, issued-act}
use kube_hardware_autoscaler.Machine.Off.{
  ensure_off, off_after_notice, off_by_phase, notice_wake, while_powering_off, force_off,
}
use kube_hardware_autoscaler.Machine.Off.Force.{ensure_off_forces_once}
use kube_hardware_autoscaler.Samples.{noon, status_in, env, machine}

-- The machine has not gone down since long.
abbrev stuck : Machine
stuck = machine (status_in Phase.powering_off true)

-- A minute later, after its power was cut.
abbrev minute_later : Env
minute_later = record env { now = noon + 60 * nanos }

abbrev still_stuck : Machine
still_stuck = machine (record (status_in Phase.powering_off true) { forced_off_at = some noon })

cut : issued (ensure_off env stuck).1 ≡ PowerAction.force_off ∷ []
unfolding ensure_off off_after_notice off_by_phase notice_wake while_powering_off force_off
    in_standby num_seconds as_i64 set_phase
cut = issued-act env PowerAction.force_off _

cut_at : still_stuck.st.forced_off_at ≡ (ensure_off env stuck).1.st.forced_off_at
unfolding ensure_off off_after_notice off_by_phase notice_wake while_powering_off force_off
    in_standby num_seconds as_i64
cut_at = refl

within : ltb_ℤ (pos 90) (num_seconds minute_later.now env.now) ≡ false
unfolding num_seconds
within = refl

ensure_off_forces_once_example :
    issued (ensure_off minute_later still_stuck).1 ≢ PowerAction.force_off ∷ []
ensure_off_forces_once_example =
    ensure_off_forces_once env minute_later stuck still_stuck cut cut_at within

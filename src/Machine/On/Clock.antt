-- ===== src/Machine/On/Clock.antt =====
-- The time of the phase while a machine is turned on (`ensure_on`,
-- src/controller/node_power_management_config.rs).
use kube_hardware_autoscaler.Base.{◌∙◌, inl, inr, Bool-cases, arith, if◌then◌else◌}
use kube_hardware_autoscaler.Crd.Enums.{Phase, PowerAction, reads_on, phase_eq, is_auto_mode}
use kube_hardware_autoscaler.Machine.Run.{
  Env, Machine, cancel_suspend, emit, event, update, uncordon_if_ours, clear_marker,
}
use kube_hardware_autoscaler.Machine.On.{
  settle_on, release_running, release_failed_power_on, arrive_on, ensure_on_ready, power_on_now,
  force_cold_boot, while_powering_on, take_powered, power_on_otherwise, call_off_standby,
  while_going_down, by_phase, ensure_on,
}
use kube_hardware_autoscaler.Machine.Clock.{
  Timed, set_phase-Timed, act_clock, announce_off_clock, probe_sleep_clock, standby_failed_clock,
  uncordon_clock, clear_marker_clock,
}

module _ (env : Env) where
  release_running-Timed : (s : Machine) → Timed s → Timed (release_running env s)
  unfolding release_running
  release_running-Timed s h =
      set_phase-Timed env Phase.boot_failed _
        (act_clock env PowerAction.force_off _ ∙ announce_off_clock env s ∙ h)

  release-Timed : (s : Machine) → Timed s → Timed (release_failed_power_on env s)
  unfolding release_failed_power_on
  release-Timed s h = elim (Bool-cases (reads_on s.st.power_state)) [
    | inl e ↦ rw e (release_running-Timed _ h)
    | inr e ↦ rw e (set_phase-Timed env Phase.off _ h)
  ]

  settle_on-Timed : (s : Machine) → Timed s → Timed (update (settle_on env) s)
  settle_on-Timed s h = set_phase-Timed env Phase.on s.st h

  arrive_on-Timed : (s : Machine) → Timed s → Timed (arrive_on env s)
  unfolding arrive_on
  arrive_on-Timed s h =
      let s' = if phase_eq s.st.phase Phase.on then s else emit (event "NodeOnline") s in
      let h' : Timed s' = elim (Bool-cases (phase_eq s.st.phase Phase.on)) [
        | inl e ↦ rw e h
        | inr e ↦ rw e h
      ] in
      let s'' = update (settle_on env) s' in
      let h'' = settle_on-Timed s' h' in
      elim (Bool-cases (is_auto_mode env.spec.lifecycle.power_off_mode)) [
        | inl e ↦ rw e (probe_sleep_clock env s'' ∙ h'')
        | inr e ↦ rw e h''
      ]

  ready-Timed : (s : Machine) → Timed s → Timed (ensure_on_ready env s).1
  unfolding ensure_on_ready
  ready-Timed s h =
      let s₁ = (uncordon_if_ours env env.node s).1 in
      let s₂ = (clear_marker env env.node s₁).1 in
      let h₁ : Timed s₁ = uncordon_clock env env.node s ∙ h in
      let h₂ : Timed s₂ = clear_marker_clock env env.node s₁ ∙ h₁ in
      ground (arith, h, h₁, h₂, arrive_on-Timed s₂ h₂)

  power_on_now-Timed : (s : Machine) → Timed s → Timed (power_on_now env s)
  unfolding power_on_now
  power_on_now-Timed s h = set_phase-Timed env _ _ (act_clock env PowerAction.power_on s ∙ h)

  force_cold_boot-Timed : (s : Machine) → Timed s → Timed (force_cold_boot env s)
  unfolding force_cold_boot
  force_cold_boot-Timed s h =
      set_phase-Timed env Phase.error _
        (act_clock env PowerAction.force_off _ ∙ standby_failed_clock env s ∙ h)

  while_powering_on-Timed : (s : Machine) → Timed s → Timed (while_powering_on env s)
  unfolding while_powering_on
  while_powering_on-Timed s h =
      ground (arith, h, force_cold_boot-Timed s h, act_clock env PowerAction.power_on s)

  take_powered-Timed : (s : Machine) → Timed s → Timed (take_powered env s).1
  unfolding take_powered
  take_powered-Timed s h =
      let s₁ = (uncordon_if_ours env env.node s).1 in
      let h₁ : Timed s₁ = uncordon_clock env env.node s ∙ h in
      ground (arith, h₁, set_phase-Timed env Phase.powering_on s₁.st h₁)

  power_on_otherwise-Timed : (s : Machine) → Timed s → Timed (power_on_otherwise env s).1
  unfolding power_on_otherwise
  power_on_otherwise-Timed s h = ground (arith, h, take_powered-Timed s h, power_on_now-Timed s h)

  while_going_down-Timed : (s : Machine) → Timed s → Timed (while_going_down env s).1
  unfolding while_going_down call_off_standby
  while_going_down-Timed s h =
      ground (arith, h, power_on_otherwise-Timed s h, power_on_now-Timed (emit cancel_suspend s) h)

  by_phase-Timed : (p : Phase) (s : Machine) → Timed s → Timed (by_phase env p s).1
  unfolding by_phase
  by_phase-Timed Phase.powering_on s h = while_powering_on-Timed s h
  by_phase-Timed Phase.powering_off s h = while_going_down-Timed s h
  by_phase-Timed Phase.standby s h = while_going_down-Timed s h
  by_phase-Timed _ s h = power_on_otherwise-Timed s h

  pub ensure_on-Timed : (s : Machine) → Timed s → Timed (ensure_on env s).1
  unfolding ensure_on
  ensure_on-Timed s h =
      ground (arith, h, ready-Timed s h, release-Timed s h, by_phase-Timed s.st.phase s h)

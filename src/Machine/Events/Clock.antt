-- ===== src/Machine/Events/Clock.antt =====
-- The time of the phase under manual changes, boot failures and observation (`manual_change`,
-- `boot`, `observe`, src/controller/node_power_management_config.rs).
use kube_hardware_autoscaler.Base.{Bool, ◌∙◌, inl, inr, Bool-cases, Option, none, some, is_some}
use kube_hardware_autoscaler.Crd.Enums.{Phase, PowerAction}
use kube_hardware_autoscaler.Crd.Status.{BootFailure}
use kube_hardware_autoscaler.Machine.Rules.{
  ManualChange, no_change, powered_on, powered_off, in_standby,
}
use kube_hardware_autoscaler.Machine.Boot.{
  BootEvent, no_event, failed, recovered, boot_failure_leaves_on,
}
use kube_hardware_autoscaler.Machine.Run.{Env, Machine, update, set_phase, act, announce_off}
use kube_hardware_autoscaler.Machine.Events.{
  manual_change, note_failure, fail_boot, force_failed, must_force, keep_failing, still_failing,
  after_failure, boot, observed_phase, observe,
}
use kube_hardware_autoscaler.Machine.Clock.{
  Timed, if-Timed, set_phase-Timed, act_clock, announce_off_clock,
}

module _ (env : Env) where
  pub manual_change-Timed :
      (c : ManualChange) (s : Machine) → Timed s → Timed (manual_change env c s)
  unfolding manual_change
  manual_change-Timed no_change s h = h
  manual_change-Timed powered_on s h = h
  manual_change-Timed powered_off s h = h

  note_failure-Timed : (leave : Bool) (s : Machine) → Timed s → Timed (note_failure env leave s)
  unfolding note_failure
  note_failure-Timed leave s h = set_phase-Timed env Phase.boot_failed _ h

  fail_boot-Timed : (s : Machine) → Timed s → Timed (fail_boot env s)
  unfolding fail_boot
  fail_boot-Timed s h =
      let leave = boot_failure_leaves_on s.st env.spec.power_policy env.manual_policy in
      let noted = note_failure env leave s in
      let off = (act env PowerAction.power_off (announce_off env noted)).1 in
      let h' = note_failure-Timed leave s h in
      if-Timed leave noted off h' (
        act_clock env PowerAction.power_off (announce_off env noted)
        ∙ announce_off_clock env noted
        ∙ h')

  keep_failing-Timed : (f : BootFailure) (s : Machine) → Timed s → Timed (keep_failing env f s)
  unfolding keep_failing force_failed
  keep_failing-Timed f s h =
      let s' = update (set_phase env Phase.boot_failed) s in
      let h' : Timed s' = set_phase-Timed env Phase.boot_failed s.st h in
      if-Timed (must_force env f s'.st) (force_failed env s') s'
        (act_clock env PowerAction.force_off s' ∙ h') h'

  after_failure-Timed :
      (f : Option BootFailure) (s : Machine) → Timed s → Timed (after_failure env f s).1
  unfolding after_failure
  after_failure-Timed none s h = h
  after_failure-Timed (some f) s h = elim (Bool-cases (still_failing env s.st)) [
    | inl e ↦ simp e (keep_failing-Timed f s h)
    | inr e ↦ simp e h
  ]

  pub boot-Timed : (e : BootEvent) (s : Machine) → Timed s → Timed (boot env e s).1
  unfolding boot
  boot-Timed recovered s h = h
  boot-Timed failed s h = fail_boot-Timed s h
  boot-Timed no_event s h = after_failure-Timed s.st.boot_failure s h

  pub observe-Timed : (s : Machine) → Timed s → Timed (observe env s).1
  unfolding observe
  observe-Timed s h =
      elim (Bool-cases (in_standby s.st.phase (is_some s.st.standby_since) s.st.node_ready)) [
        | inl e ↦ simp e h
        | inr e ↦
            simp e
              (set_phase-Timed env (observed_phase env s.st.power_state s.st.node_ready) s.st h)
      ]

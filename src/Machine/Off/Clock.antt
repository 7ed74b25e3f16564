-- ===== src/Machine/Off/Clock.antt =====
-- The time of the phase while a machine is turned off (`ensure_off`,
-- src/controller/node_power_management_config.rs).
use kube_hardware_autoscaler.Base.{
  Bool, ◌&&◌, is_some, ◌≡◌, refl, ◌∙◌, inl, inr, Bool-cases, arith, Option, none, some, List, [],
  ◌∷◌, if◌then◌else◌,
}
use kube_hardware_autoscaler.Base.Int.{pos, ltb_ℤ}
use kube_hardware_autoscaler.Crd.Texts.{drain_timed_out_forced}
use kube_hardware_autoscaler.Crd.Enums.{Phase, PowerAction, phase_eq, is_auto, is_auto_mode}
use kube_hardware_autoscaler.Cluster.{Node, Pod}
use kube_hardware_autoscaler.Scaling.Pods.{DrainClass, ignore, evict, block, drain_class}
use kube_hardware_autoscaler.Machine.Run.{
  Env, Machine, emit, event, say, update, in_phase_for, since_last_action, act, cordon_node,
  uncordon_if_ours,
}
use kube_hardware_autoscaler.Machine.Sleep.{off_action, probe_sleep, standby_failed}
use kube_hardware_autoscaler.Machine.Off.{
  Found, survey, evict_pod, evict_pods, power_off, finish_drain, after_probe, drained, call_off,
  abort_scale_down, drain_failed, force_drain, restart_drain_timer, drain_timeout, after_evictions,
  drain, shut_down_instead, force_off, while_powering_off, start_drain, off_by_phase, notice_wake,
  arrive_off, off_after_notice, ensure_off, down_phase, forced_recently, last_failed,
  shutdown_timeout, settle,
}
use kube_hardware_autoscaler.Machine.Clock.{
  is_untimed, or_true, if-Timed, has_clock, Timed, set_phase-Timed, act_clock, announce_off_clock,
  probe_sleep_clock, cordon_node_clock, uncordon_clock,
}

evict_pod_clock :
    (c : DrainClass) (p : Pod) (s : Machine) → has_clock (evict_pod c p s).st ≡ has_clock s.st
evict_pod_clock ignore p s = refl
evict_pod_clock evict p s = ground arith
evict_pod_clock (block why) p s = refl

evict_pods_clock : (ps : List Pod) (s : Machine) → has_clock (evict_pods ps s).st ≡ has_clock s.st
unfolding evict_pods
evict_pods_clock [] s = refl
evict_pods_clock (p ∷ ps) s =
    evict_pods_clock ps (evict_pod (drain_class p) p s) ∙ evict_pod_clock (drain_class p) p s

module _ (env : Env) where
  power_off-Timed : (s : Machine) → Timed s → Timed (power_off env s)
  unfolding power_off
  power_off-Timed s h =
      set_phase-Timed env Phase.powering_off _ (act_clock env _ _ ∙ announce_off_clock env s ∙ h)

  finish_drain-Timed : (s : Machine) → Timed s → Timed (finish_drain env s)
  unfolding finish_drain
  finish_drain-Timed s h = power_off-Timed _ h

  after_probe-Timed : (k : Option Bool) (s : Machine) → Timed s → Timed (after_probe env k s).1
  unfolding after_probe
  after_probe-Timed k s h = ground (arith, h, finish_drain-Timed s h)

  drained-Timed : (s : Machine) → Timed s → Timed (drained env s).1
  unfolding drained
  drained-Timed s h = elim (Bool-cases (is_auto_mode env.spec.lifecycle.power_off_mode)) [
    | inl e ↦ rw e (
        after_probe-Timed (probe_sleep env s).0 (probe_sleep env s).1 (probe_sleep_clock env s ∙ h))
    | inr e ↦ rw e (finish_drain-Timed s h)
  ]

  abort-Timed : (s : Machine) → Timed s → Timed (abort_scale_down env s).1
  unfolding abort_scale_down call_off
  abort-Timed s h =
      let s₁ = update (call_off env) s in
      let s₂ = (uncordon_if_ours env env.node s₁).1 in
      let h₂ : Timed s₂ = uncordon_clock env env.node s₁ ∙ h in
      ground (arith, h₂, set_phase-Timed env Phase.on s₂.st h₂)

  force_drain-Timed : (f : Found) (s : Machine) → Timed s → Timed (force_drain env f s)
  unfolding force_drain
  force_drain-Timed f s h =
      power_off-Timed
        (emit (event "DrainTimeout")
          (update (say (drain_timed_out_forced f.remaining f.blocked)) s))
        h

  drain_timeout-Timed : (f : Found) (s : Machine) → Timed s → Timed (drain_timeout env f s).1
  unfolding drain_timeout drain_failed restart_drain_timer
  drain_timeout-Timed f s h = elim (Bool-cases env.spec.lifecycle.force_after_drain_timeout) [
    | inl e ↦ simp e (force_drain-Timed f s h)
    | inr e ↦ elim (Bool-cases (is_auto env.spec.power_policy)) [
      | inl a ↦ simp (e, a) (abort-Timed (drain_failed env f s) h)
      | inr a ↦ simp (e, a) (or_true (is_untimed s.st.phase))
    ]
  ]

  after_evictions-Timed : (f : Found) (s : Machine) → Timed s → Timed (after_evictions env f s).1
  unfolding after_evictions
  after_evictions-Timed f s h = ground (arith, h, drained-Timed s h, drain_timeout-Timed f s h)

  drain-Timed : (s : Machine) → Timed s → Timed (drain env s).1
  unfolding drain
  drain-Timed s h = after_evictions-Timed (survey env.pods) _ (evict_pods_clock env.pods s ∙ h)

  shut_down_instead-Timed : (s : Machine) → Timed s → Timed (shut_down_instead env s)
  unfolding shut_down_instead
  shut_down_instead-Timed s h = or_true _

  force_off-Timed : (s : Machine) → Timed s → Timed (force_off env s)
  unfolding force_off
  force_off-Timed s h = act_clock env PowerAction.force_off _ ∙ h

  while_powering_off-Timed : (s : Machine) → Timed s → Timed (while_powering_off env s)
  unfolding while_powering_off
  while_powering_off-Timed s h =
      let forced = if forced_recently env s.st then s else force_off env s in
      let again =
        if last_failed env s.st && ltb_ℤ (pos 30) (since_last_action env (off_action env s.st) s.st)
        then (act env (off_action env s.st) s).1
        else s in
      let late = ltb_ℤ (shutdown_timeout env) (in_phase_for env s.st) in
      if-Timed (is_some s.st.standby_since && ltb_ℤ (settle env) (in_phase_for env s.st))
        (shut_down_instead env s) (if late then forced else again) (shut_down_instead-Timed s h)
        (if-Timed late forced again
          (if-Timed (forced_recently env s.st) s (force_off env s) h (force_off-Timed s h))
          (if-Timed
            (last_failed env s.st
              && ltb_ℤ (pos 30) (since_last_action env (off_action env s.st) s.st))
            (act env (off_action env s.st) s).1 s (act_clock env (off_action env s.st) s ∙ h) h))

  start_drain-Timed : (n : Option Node) (s : Machine) → Timed s → Timed (start_drain env n s).1
  unfolding start_drain
  start_drain-Timed none s h = h
  start_drain-Timed (some n) s h =
      let s₁ = (cordon_node env n s).1 in
      let h₁ : Timed s₁ = cordon_node_clock env n s ∙ h in
      ground (arith, h₁, set_phase-Timed env Phase.draining s₁.st h₁)

  off_by_phase-Timed : (p : Phase) (s : Machine) → Timed s → Timed (off_by_phase env p s).1
  unfolding off_by_phase
  off_by_phase-Timed Phase.powering_off s h = while_powering_off-Timed s h
  off_by_phase-Timed Phase.draining s h = drain-Timed s h
  off_by_phase-Timed _ s h = start_drain-Timed env.node s h

  notice_wake-Timed : (s : Machine) → Timed s → Timed (notice_wake env s)
  unfolding notice_wake standby_failed
  notice_wake-Timed s h = ground (arith, h)

  arrive_off-Timed : (s : Machine) → Timed s → Timed (arrive_off env s)
  unfolding arrive_off
  arrive_off-Timed s h = elim (Bool-cases (phase_eq s.st.phase (down_phase env s.st))) [
    | inl e ↦ rw e (set_phase-Timed env (down_phase env s.st) s.st h)
    | inr e ↦ rw e (set_phase-Timed env (down_phase env s.st) s.st h)
  ]

  off_after_notice-Timed : (s : Machine) → Timed s → Timed (off_after_notice env s).1
  unfolding off_after_notice
  off_after_notice-Timed s h =
      ground (arith, h, arrive_off-Timed s h, off_by_phase-Timed s.st.phase s h)

  pub ensure_off-Timed : (s : Machine) → Timed s → Timed (ensure_off env s).1
  unfolding ensure_off
  ensure_off-Timed s h = off_after_notice-Timed (notice_wake env s) (notice_wake-Timed s h)

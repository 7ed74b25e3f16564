-- ===== src/Machine/Off/Commands.antt =====
-- The power commands of `ensure_off` (src/controller/node_power_management_config.rs).
use kube_hardware_autoscaler.Base.{
  ℕ, Bool, ◌≡◌, refl, ◌⊎◌, inl, inr, Option, none, some, List, [], ◌∷◌, arith,
}
use kube_hardware_autoscaler.Crd.Enums.{Phase, PowerAction}
use kube_hardware_autoscaler.Crd.Texts.{forcing_power_off, drain_timed_out_forced}
use kube_hardware_autoscaler.Cluster.{Node, Pod}
use kube_hardware_autoscaler.Scaling.Pods.{drain_class}
use kube_hardware_autoscaler.Machine.Rules
use kube_hardware_autoscaler.Machine.Run.{Env, Machine, act, emit, update, say, event, announce_off}
use kube_hardware_autoscaler.Machine.Sleep.{off_action, probe_sleep, standby_failed}
use kube_hardware_autoscaler.Machine.Commands.{
  issued, added, issued-act, issued-probe_sleep, issued-uncordon_if_ours, issued-cordon_node,
  issued-announce_off,
}
use kube_hardware_autoscaler.Machine.Off.{
  Found, survey, evict_pod, evict_pods, power_off, finish_drain, after_probe, drained, call_off,
  force_drain, abort_scale_down, drain_failed, drain_timeout, after_evictions, drain,
  while_powering_off, start_drain, off_by_phase, notice_wake, arrive_off, off_after_notice,
  ensure_off,
}

-- Nothing, PowerOff, Standby or ForceOff.
abbrev pub OffCommands : Env → Machine → Machine → Type 0
OffCommands env s s' =
    (issued s' ≡ issued s)
    ⊎ (issued s' ≡ added env PowerAction.power_off (issued s))
    ⊎ (issued s' ≡ added env PowerAction.standby (issued s))
    ⊎ (issued s' ≡ added env PowerAction.force_off (issued s))

-- The same without a ForceOff.
abbrev pub SoftCommands : Env → Machine → Machine → Type 0
SoftCommands env s s' =
    (issued s' ≡ issued s)
    ⊎ (issued s' ≡ added env PowerAction.power_off (issued s))
    ⊎ (issued s' ≡ added env PowerAction.standby (issued s))

off_rule-cases :
    (mode : _) (failed : Option ℕ) (s3 : Option Bool) (now : ℕ)
    → (Rules.off_action mode failed s3 now ≡ PowerAction.power_off)
      ⊎ (Rules.off_action mode failed s3 now ≡ PowerAction.standby)
unfolding Rules.off_action
off_rule-cases mode failed s3 now = ground arith

module _ (env : Env) where
  off_action-cases :
      (st : _)
      → (off_action env st ≡ PowerAction.power_off) ⊎ (off_action env st ≡ PowerAction.standby)
  unfolding off_action
  off_action-cases st =
      off_rule-cases env.spec.lifecycle.power_off_mode st.standby_failed_at _ env.now

  pub act_off-SoftCommands :
      (s t : Machine) → issued t ≡ issued s → SoftCommands env s (act env (off_action env t.st) t).1
  act_off-SoftCommands s t h = elim (off_action-cases t.st) [
    | inl e ↦ inr (inl (rw e (rw (issued-act env PowerAction.power_off t, h))))
    | inr e ↦ inr (inr (rw e (rw (issued-act env PowerAction.standby t, h))))
  ]

  power_off-SoftCommands :
      (s t : Machine) → issued t ≡ issued s → SoftCommands env s (power_off env t)
  unfolding power_off
  power_off-SoftCommands s t h =
      act_off-SoftCommands s (announce_off env t) (ground (arith, issued-announce_off env t))

  pub evict_pods-Quiet : (pods : List Pod) (s : Machine) → issued (evict_pods pods s) ≡ issued s
  unfolding evict_pods
  evict_pods-Quiet [] s = refl
  evict_pods-Quiet (p ∷ ps) s = ground (arith, evict_pods-Quiet ps (evict_pod (drain_class p) p s))

  finish_drain-SoftCommands :
      (s t : Machine) → issued t ≡ issued s → SoftCommands env s (finish_drain env t)
  unfolding finish_drain
  finish_drain-SoftCommands s t h = power_off-SoftCommands s _ h

  after_probe-SoftCommands :
      (known : Option Bool) (s t : Machine)
      → issued t ≡ issued s
      → SoftCommands env s (after_probe env known t).1
  unfolding after_probe
  after_probe-SoftCommands known s t h = ground (arith, finish_drain-SoftCommands s t h)

  drained-SoftCommands :
      (s t : Machine) → issued t ≡ issued s → SoftCommands env s (drained env t).1
  unfolding drained
  drained-SoftCommands s t h =
      let (known, t') = probe_sleep env t in
      ground (
        arith,
        finish_drain-SoftCommands s t h,
        issued-probe_sleep env t,
        after_probe-SoftCommands known s t',
      )

  pub abort-Quiet : (s : Machine) → issued (abort_scale_down env s).1 ≡ issued s
  unfolding abort_scale_down
  abort-Quiet s = ground (arith, issued-uncordon_if_ours env env.node (update (call_off env) s))

  drain_timeout-SoftCommands :
      (f : Found) (s t : Machine)
      → issued t ≡ issued s
      → SoftCommands env s (drain_timeout env f t).1
  unfolding drain_timeout force_drain
  drain_timeout-SoftCommands f s t h = ground (
    arith,
    abort-Quiet (drain_failed env f t),
    power_off-SoftCommands s (
        emit (event "DrainTimeout")
          (update (say (drain_timed_out_forced f.remaining f.blocked)) t)),
  )

  after_evictions-SoftCommands :
      (f : Found) (s t : Machine)
      → issued t ≡ issued s
      → SoftCommands env s (after_evictions env f t).1
  unfolding after_evictions
  after_evictions-SoftCommands f s t h =
      ground (arith, drained-SoftCommands s t h, drain_timeout-SoftCommands f s t h)

  pub drain-SoftCommands : (s : Machine) → SoftCommands env s (drain env s).1
  unfolding drain
  drain-SoftCommands s =
      after_evictions-SoftCommands (survey env.pods) s _ (evict_pods-Quiet env.pods s)

  SoftCommands-OffCommands : (s s' : Machine) → SoftCommands env s s' → OffCommands env s s'
  SoftCommands-OffCommands s s' (inl h) = inl h
  SoftCommands-OffCommands s s' (inr (inl h)) = inr (inl h)
  SoftCommands-OffCommands s s' (inr (inr h)) = inr (inr (inl h))

  while_powering_off-OffCommands : (s : Machine) → OffCommands env s (while_powering_off env s)
  unfolding while_powering_off standby_failed
  while_powering_off-OffCommands s = ground (
    arith,
    issued-act env PowerAction.power_off (standby_failed env s),
    issued-act env PowerAction.force_off
        (update (say (forcing_power_off env.spec.lifecycle.shutdown_timeout_seconds)) s),
    act_off-SoftCommands s s refl,
  )

  pub start_drain-Quiet :
      (n : Option Node) (s : Machine) → issued (start_drain env n s).1 ≡ issued s
  unfolding start_drain
  start_drain-Quiet none s = refl
  start_drain-Quiet (some n) s = ground (arith, issued-cordon_node env n s)

  pub notice_wake-Quiet : (s : Machine) → issued (notice_wake env s) ≡ issued s
  unfolding notice_wake standby_failed
  notice_wake-Quiet s = ground arith

  pub arrive_off-Quiet : (s : Machine) → issued (arrive_off env s) ≡ issued s
  unfolding arrive_off
  arrive_off-Quiet s = ground arith

  off_by_phase-OffCommands :
      (p : Phase) (s t : Machine) → issued t ≡ issued s → OffCommands env s (off_by_phase env p t).1
  unfolding off_by_phase
  off_by_phase-OffCommands Phase.powering_off s t h =
      ground (arith, while_powering_off-OffCommands t)
  off_by_phase-OffCommands Phase.draining s t h = ground (arith, drain-SoftCommands t)
  off_by_phase-OffCommands _ s t h = ground (arith, start_drain-Quiet env.node t)

  -- `ensure_off` issues at most one command, and never a PowerOn.
  pub ensure_off-OffCommands : (s : Machine) → OffCommands env s (ensure_off env s).1
  unfolding ensure_off off_after_notice
  ensure_off-OffCommands s =
      let t = notice_wake env s in
      ground
        (arith, notice_wake-Quiet s, arrive_off-Quiet t, off_by_phase-OffCommands t.st.phase s t)

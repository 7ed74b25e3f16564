-- ===== src/Machine/On/Commands.antt =====
-- The power commands of `ensure_on` (src/controller/node_power_management_config.rs).
use kube_hardware_autoscaler.Base.{◌≡◌, ◌⊎◌, inl, inr, some, arith, Bool-cases}
use kube_hardware_autoscaler.Crd.Enums.{Phase, PowerAction, reads_on}
use kube_hardware_autoscaler.Machine.Run.{
  Env, Machine, emit, update, cancel_suspend, announce_off, uncordon_if_ours, clear_marker,
}
use kube_hardware_autoscaler.Machine.Sleep.{standby_failed}
use kube_hardware_autoscaler.Machine.Commands.{
  issued, added, issued-act, issued-probe_sleep, issued-uncordon_if_ours, issued-clear_marker,
}
use kube_hardware_autoscaler.Machine.On.{
  release_failed_power_on, ensure_on_ready, power_on_now, while_powering_on, power_on_otherwise,
  while_going_down, by_phase, ensure_on, arrive_on, release_running, call_off_standby, take_powered,
}

-- Nothing, PowerOn or ForceOff.
abbrev pub OnCommands : Env → Machine → Machine → Type 0
OnCommands env s s' =
    (issued s' ≡ issued s)
    ⊎ (issued s' ≡ added env PowerAction.power_on (issued s))
    ⊎ (issued s' ≡ added env PowerAction.force_off (issued s))

module _ (env : Env) where
  release_running-OnCommands :
      (s : Machine) → issued (release_running env s) ≡ added env PowerAction.force_off (issued s)
  unfolding release_running
  release_running-OnCommands s = ground (
    arith,
    issued-act env PowerAction.force_off (
        update (λ st. record st { powered_on_not_ready_since = some env.now })
          (announce_off env s)),
  )

  release-OnCommands : (s : Machine) → OnCommands env s (release_failed_power_on env s)
  unfolding release_failed_power_on
  release-OnCommands s = elim (Bool-cases (reads_on s.st.power_state)) [
    | inl e ↦ inr (inr (rw e (release_running-OnCommands _)))
    | inr e ↦ inl (rw e)
  ]

  arrive_on-Quiet : (s : Machine) → issued (arrive_on env s) ≡ issued s
  unfolding arrive_on
  arrive_on-Quiet s = grind (arith, issued-probe_sleep)

  ready-Quiet : (s : Machine) → issued (ensure_on_ready env s).1 ≡ issued s
  unfolding ensure_on_ready
  ready-Quiet s =
      let s₁ = (uncordon_if_ours env env.node s).1 in
      let s₂ = (clear_marker env env.node s₁).1 in
      ground (
        arith,
        issued-uncordon_if_ours env env.node s,
        issued-clear_marker env env.node s₁,
        arrive_on-Quiet s₂,
      )

  power_on_now-OnCommands :
      (s : Machine) → issued (power_on_now env s) ≡ added env PowerAction.power_on (issued s)
  unfolding power_on_now
  power_on_now-OnCommands s = ground (arith, issued-act env PowerAction.power_on s)

  while_powering_on-OnCommands : (s : Machine) → OnCommands env s (while_powering_on env s)
  unfolding while_powering_on standby_failed
  while_powering_on-OnCommands s = ground (
    arith,
    issued-act env PowerAction.power_on s,
    issued-act env PowerAction.force_off (standby_failed env s),
  )

  take_powered-Quiet : (s : Machine) → issued (take_powered env s).1 ≡ issued s
  unfolding take_powered
  take_powered-Quiet s = ground (arith, issued-uncordon_if_ours env env.node s)

  power_on_otherwise-OnCommands : (s : Machine) → OnCommands env s (power_on_otherwise env s).1
  unfolding power_on_otherwise
  power_on_otherwise-OnCommands s = ground (arith, take_powered-Quiet s, power_on_now-OnCommands s)

  while_going_down-OnCommands : (s : Machine) → OnCommands env s (while_going_down env s).1
  unfolding while_going_down call_off_standby
  while_going_down-OnCommands s =
      ground
        (arith, power_on_otherwise-OnCommands s, power_on_now-OnCommands (emit cancel_suspend s))

  by_phase-OnCommands : (p : Phase) (s : Machine) → OnCommands env s (by_phase env p s).1
  unfolding by_phase
  by_phase-OnCommands Phase.powering_on s = while_powering_on-OnCommands s
  by_phase-OnCommands Phase.powering_off s = while_going_down-OnCommands s
  by_phase-OnCommands Phase.standby s = while_going_down-OnCommands s
  by_phase-OnCommands _ s = power_on_otherwise-OnCommands s

  -- `ensure_on` issues at most one command, and never a PowerOff or Standby.
  pub ensure_on-OnCommands : (s : Machine) → OnCommands env s (ensure_on env s).1
  unfolding ensure_on
  ensure_on-OnCommands s =
      ground (arith, ready-Quiet s, release-OnCommands s, by_phase-OnCommands s.st.phase s)

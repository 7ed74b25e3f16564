-- ===== src/Machine/Events/Commands.antt =====
-- The power commands of `manual_change`, `boot` and `observe` (src/controller/
-- node_power_management_config.rs).
use kube_hardware_autoscaler.Base.{◌≡◌, refl, ◌⊎◌, inl, Option, none, some, arith}
use kube_hardware_autoscaler.Crd.Enums.{Phase, PowerAction}
use kube_hardware_autoscaler.Crd.Status.{BootFailure}
use kube_hardware_autoscaler.Machine.Rules.{ManualChange}
use kube_hardware_autoscaler.Machine.Boot.{
  BootEvent, no_event, failed, recovered, boot_failure_leaves_on,
}
use kube_hardware_autoscaler.Machine.Run.{Env, Machine, announce_off, update, set_phase}
use kube_hardware_autoscaler.Machine.Commands.{issued, added, issued-act, issued-announce_off}
use kube_hardware_autoscaler.Machine.Events.{
  manual_change, boot, observe, note_failure, fail_boot, keep_failing, after_failure,
}

-- Nothing, PowerOff or ForceOff.
abbrev pub BootCommands : Env → Machine → Machine → Type 0
BootCommands env s s' =
    (issued s' ≡ issued s)
    ⊎ (issued s' ≡ added env PowerAction.power_off (issued s))
    ⊎ (issued s' ≡ added env PowerAction.force_off (issued s))

module _ (env : Env) where
  pub issued-manual_change :
      (c : ManualChange) (s : Machine) → issued (manual_change env c s) ≡ issued s
  unfolding manual_change
  issued-manual_change c s = ground arith

  pub issued-observe : (s : Machine) → issued (observe env s).1 ≡ issued s
  unfolding observe
  issued-observe s = ground arith

  fail_boot-BootCommands : (s : Machine) → BootCommands env s (fail_boot env s)
  unfolding fail_boot
  fail_boot-BootCommands s =
      let leave = boot_failure_leaves_on s.st env.spec.power_policy env.manual_policy in
      let noted = note_failure env leave s in
      ground (
        arith,
        issued-act env PowerAction.power_off (announce_off env noted),
        issued-announce_off env noted,
      )

  keep_failing-BootCommands :
      (f : BootFailure) (s : Machine) → BootCommands env s (keep_failing env f s)
  unfolding keep_failing
  keep_failing-BootCommands f s =
      ground
        (arith, issued-act env PowerAction.force_off (update (set_phase env Phase.boot_failed) s))

  after_failure-BootCommands :
      (o : Option BootFailure) (s : Machine) → BootCommands env s (after_failure env o s).1
  unfolding after_failure
  after_failure-BootCommands none s = inl refl
  after_failure-BootCommands (some f) s = ground (arith, keep_failing-BootCommands f s)

  pub boot-BootCommands : (e : BootEvent) (s : Machine) → BootCommands env s (boot env e s).1
  unfolding boot
  boot-BootCommands recovered s = inl refl
  boot-BootCommands failed s = fail_boot-BootCommands s
  boot-BootCommands no_event s = after_failure-BootCommands s.st.boot_failure s

  after_failure-Quiet :
      (o : Option BootFailure) (s : Machine)
      → (after_failure env o s).0 ≡ none
      → issued (after_failure env o s).1 ≡ issued s
  unfolding after_failure
  after_failure-Quiet none s h = refl
  after_failure-Quiet (some f) s h = ground arith

  -- Where the boot handler lets the state machine run, it has issued nothing.
  pub issued-boot :
      (e : BootEvent) (s : Machine) → (boot env e s).0 ≡ none → issued (boot env e s).1 ≡ issued s
  unfolding boot
  issued-boot recovered s h = refl
  issued-boot failed s h = cc
  issued-boot no_event s h = after_failure-Quiet s.st.boot_failure s h

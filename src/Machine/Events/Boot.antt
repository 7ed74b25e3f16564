-- ===== src/Machine/Events/Boot.antt =====
-- When `boot` (src/controller/node_power_management_config.rs) takes over from the state machine,
-- and what it leaves.
use kube_hardware_autoscaler.Base.{ℕ, Bool, true, false, ◌≡◌, ◌≢◌, refl, Option, none, some, arith}
use kube_hardware_autoscaler.Crd.Enums.{Phase, PowerAction}
use kube_hardware_autoscaler.Crd.Status.{BootFailure}
use kube_hardware_autoscaler.Machine.Rules.{ManualChange}
use kube_hardware_autoscaler.Machine.Boot.{
  BootEvent, no_event, failed, recovered, boot_failure_leaves_on,
}
use kube_hardware_autoscaler.Machine.Run.{Env, Machine, announce_off, update, set_phase}
use kube_hardware_autoscaler.Machine.Commands.{
  issued, added, issued-act, issued-announce_off, act_phase,
}
use kube_hardware_autoscaler.Machine.Events.{
  manual_change, boot, note_failure, fail_boot, keep_failing, after_failure,
}

module _ (env : Env) where
  pub manual_change_ready :
      (c : ManualChange) (s : Machine) → (manual_change env c s).st.node_ready ≡ s.st.node_ready
  unfolding manual_change
  manual_change_ready c s = ground arith

  after_failure_ready :
      (o : Option BootFailure) (s : Machine)
      → s.st.node_ready ≡ true
      → (after_failure env o s).0 ≡ none
  unfolding after_failure
  after_failure_ready none s h = refl
  after_failure_ready (some f) s h = ground arith

  -- The boot handler has nothing to do for a Ready Node whose boot has not failed.
  pub boot_ready :
      (e : BootEvent) (s : Machine) → e ≢ failed → s.st.node_ready ≡ true → (boot env e s).0 ≡ none
  unfolding boot
  boot_ready recovered s n h = refl
  boot_ready failed s n h = absurd (n refl)
  boot_ready no_event s n h = after_failure_ready s.st.boot_failure s h

  set_phase_phase : (p : Phase) (st : _) → (set_phase env p st).phase ≡ p
  unfolding set_phase
  set_phase_phase p st = ground arith

  note_failure_phase :
      (leave : Bool) (s : Machine) → (note_failure env leave s).st.phase ≡ Phase.boot_failed
  unfolding note_failure
  note_failure_phase leave s = set_phase_phase Phase.boot_failed _

  issued-note_failure : (leave : Bool) (s : Machine) → issued (note_failure env leave s) ≡ issued s
  unfolding note_failure
  issued-note_failure leave s = refl

  announce_off_phase : (s : Machine) → (announce_off env s).st.phase ≡ s.st.phase
  announce_off_phase s = ground arith

  fail_boot_phase : (s : Machine) → (fail_boot env s).st.phase ≡ Phase.boot_failed
  unfolding fail_boot
  fail_boot_phase s =
      let leave = boot_failure_leaves_on s.st env.spec.power_policy env.manual_policy in
      let noted = note_failure env leave s in
      ground (
        arith,
        note_failure_phase leave s,
        announce_off_phase noted,
        act_phase env PowerAction.power_off (announce_off env noted),
      )

  keep_failing_phase :
      (f : BootFailure) (s : Machine) → (keep_failing env f s).st.phase ≡ Phase.boot_failed
  unfolding keep_failing
  keep_failing_phase f s =
      let t = update (set_phase env Phase.boot_failed) s in
      ground (arith, set_phase_phase Phase.boot_failed s.st, act_phase env PowerAction.force_off t)

  after_failure_phase :
      (o : Option BootFailure) (s : Machine) {r : ℕ}
      → (after_failure env o s).0 ≡ some r
      → (after_failure env o s).1.st.phase ≡ Phase.boot_failed
  unfolding after_failure
  after_failure_phase none s h = cc
  after_failure_phase (some f) s h = ground (arith, keep_failing_phase f s)

  -- Where the boot handler takes over, the machine ends boot-failed.
  pub boot_phase :
      (e : BootEvent) (s : Machine) {r : ℕ}
      → (boot env e s).0 ≡ some r
      → (boot env e s).1.st.phase ≡ Phase.boot_failed
  unfolding boot
  boot_phase recovered s h = cc
  boot_phase failed s h = fail_boot_phase s
  boot_phase no_event s h = after_failure_phase s.st.boot_failure s h

  -- A failed boot that does not leave the machine on is powered off.
  pub issued-boot_failed :
      (s : Machine)
      → boot_failure_leaves_on s.st env.spec.power_policy env.manual_policy ≡ false
      → issued (boot env failed s).1 ≡ added env PowerAction.power_off (issued s)
  unfolding boot fail_boot
  issued-boot_failed s h =
      let noted = note_failure env false s in
      rw h (
        ground (
          arith,
          issued-act env PowerAction.power_off (announce_off env noted),
          issued-announce_off env noted,
          issued-note_failure false s,
        ))

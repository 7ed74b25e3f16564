-- ===== src/Machine/Clock.antt =====
-- The time since which a machine is in its phase (`phaseSince`), on which its timeouts stand
-- (src/controller/node_power_management_config.rs): what the methods of the `Reconciler` make of it.
use kube_hardware_autoscaler.Base.{
  Bool, true, false, ◌||◌, ◌≡◌, refl, inl, inr, Bool-cases, Option, none, some, arith, is_some,
  if◌then◌else◌,
}
use kube_hardware_autoscaler.Crd.Enums.{Phase, PowerAction, phase_eq}
use kube_hardware_autoscaler.Crd.Status.{NodePowerManagementConfigStatus}
use kube_hardware_autoscaler.Cluster.{Node}
use kube_hardware_autoscaler.Machine.Run.{
  Env, Machine, set_phase, act, cordon_node, uncordon_if_ours, clear_marker, announce_off,
}
use kube_hardware_autoscaler.Machine.Sleep.{probe_sleep, standby_failed}

abbrev pub Status : Type 0
Status = NodePowerManagementConfigStatus

-- No timeout stands on these phases: a new machine's, and the one of a configuration error.
abbrev pub is_untimed : Phase → Bool
is_untimed Phase.unknown = true
is_untimed Phase.error = true
is_untimed _ = false

abbrev pub has_clock : Status → Bool
has_clock st = is_untimed st.phase || is_some st.phase_since

abbrev pub Timed : Machine → Type 0
Timed s = has_clock s.st ≡ true

pub or_true : (b : Bool) → (b || true) ≡ true
or_true b = ground arith

pub if-Timed : (b : Bool) (s t : Machine) → Timed s → Timed t → Timed (if b then s else t)
if-Timed true s t h k = h
if-Timed false s t h k = k

module _ (env : Env) where
  pub set_phase-Timed :
      (p : Phase) (st : Status) → has_clock st ≡ true → has_clock (set_phase env p st) ≡ true
  unfolding set_phase
  set_phase-Timed p st h = elim (Bool-cases (phase_eq st.phase p)) [
    | inl e ↦ rw e h
    | inr e ↦ rw e (or_true (is_untimed p))
  ]

  pub act_clock : (a : PowerAction) (s : Machine) → has_clock (act env a s).1.st ≡ has_clock s.st
  unfolding act
  act_clock a s = ground arith

  pub announce_off_clock : (s : Machine) → has_clock (announce_off env s).st ≡ has_clock s.st
  announce_off_clock s = ground arith

  pub probe_sleep_clock : (s : Machine) → has_clock (probe_sleep env s).1.st ≡ has_clock s.st
  unfolding probe_sleep
  probe_sleep_clock s = ground arith

  pub standby_failed_clock : (s : Machine) → has_clock (standby_failed env s).st ≡ has_clock s.st
  unfolding standby_failed
  standby_failed_clock s = refl

  pub cordon_node_clock :
      (n : Node) (s : Machine) → has_clock (cordon_node env n s).1.st ≡ has_clock s.st
  unfolding cordon_node
  cordon_node_clock n s = ground arith

  pub uncordon_clock :
      (n : Option Node) (s : Machine) → has_clock (uncordon_if_ours env n s).1.st ≡ has_clock s.st
  unfolding uncordon_if_ours
  uncordon_clock none s = refl
  uncordon_clock (some n) s = ground arith

  pub clear_marker_clock :
      (n : Option Node) (s : Machine) → has_clock (clear_marker env n s).1.st ≡ has_clock s.st
  unfolding clear_marker
  clear_marker_clock none s = refl
  clear_marker_clock (some n) s = ground arith

-- ===== src/Machine/Commands.antt =====
-- The power commands among the effects of a run, and what `act` (src/controller/
-- node_power_management_config.rs) adds to them.
use kube_hardware_autoscaler.Base.{
  ◌≡◌, refl, ◌⊎◌, Option, none, some, List, [], ◌∷◌, arith, if◌then◌else◌,
}
use kube_hardware_autoscaler.Crd.Enums.{PowerAction}
use kube_hardware_autoscaler.Cluster.{Node}
use kube_hardware_autoscaler.Machine.Run.{
  Env, Effect, command, Machine, act, cordon_node, uncordon_if_ours, clear_marker, announce_off,
}
use kube_hardware_autoscaler.Machine.Sleep.{probe_sleep}

-- The commands issued, the latest first.
abbrev pub commands : List Effect → List PowerAction
commands [] = []
commands (command a ∷ es) = a ∷ commands es
commands (_ ∷ es) = commands es

abbrev pub issued : Machine → List PowerAction
issued s = commands s.log

-- What `act` adds: the action itself, but nothing in a dry run.
abbrev pub added : Env → PowerAction → List PowerAction → List PowerAction
added env a before = if env.dry_run then before else a ∷ before

-- At most one command more than before.
abbrev pub AtMostOne : Env → Machine → Machine → Type 0
AtMostOne env s s' =
    (issued s' ≡ issued s) ⊎ ((a : PowerAction) × (issued s' ≡ added env a (issued s)))

module _ (env : Env) where
  pub issued-act : (a : PowerAction) (s : Machine) → issued (act env a s).1 ≡ added env a (issued s)
  unfolding act
  issued-act a s = ground arith

  pub issued-announce_off : (s : Machine) → issued (announce_off env s) ≡ issued s
  issued-announce_off s = ground arith

  pub issued-probe_sleep : (s : Machine) → issued (probe_sleep env s).1 ≡ issued s
  unfolding probe_sleep
  issued-probe_sleep s = ground arith

  pub issued-cordon_node : (n : Node) (s : Machine) → issued (cordon_node env n s).1 ≡ issued s
  unfolding cordon_node
  issued-cordon_node n s = ground arith

  pub issued-uncordon_if_ours :
      (n : Option Node) (s : Machine) → issued (uncordon_if_ours env n s).1 ≡ issued s
  unfolding uncordon_if_ours
  issued-uncordon_if_ours none s = refl
  issued-uncordon_if_ours (some n) s = ground arith

  pub issued-clear_marker :
      (n : Option Node) (s : Machine) → issued (clear_marker env n s).1 ≡ issued s
  unfolding clear_marker
  issued-clear_marker none s = refl
  issued-clear_marker (some n) s = ground arith

  -- An action changes neither the phase nor what was read of the machine.
  pub act_phase : (a : PowerAction) (s : Machine) → (act env a s).1.st.phase ≡ s.st.phase
  unfolding act
  act_phase a s = ground arith

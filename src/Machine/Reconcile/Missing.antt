-- ===== src/Machine/Reconcile/Missing.antt =====
-- A machine whose Node is not there (`reconcile`, src/controller/node_power_management_config.rs).
use kube_hardware_autoscaler.Base.{
  Bool, false, not, ◌||◌, ◌≡◌, refl, ◌∙◌, ◌⊎◌, inl, inr, none, List, [], ◌∷◌, arith, ap, subst,
  is_some, Option-cases,
}
use kube_hardware_autoscaler.Crd.Enums.{Phase, PowerAction}
use kube_hardware_autoscaler.Crd.Status.{NodePowerManagementConfigStatus}
use kube_hardware_autoscaler.Drivers.Driver.{ok, err}
use kube_hardware_autoscaler.Drivers.Chain
use kube_hardware_autoscaler.Drivers.Chain.{PowerChain, Checked, disable_mismatched}
use kube_hardware_autoscaler.Machine.Rules.{ManualChange}
use kube_hardware_autoscaler.Machine.Boot.{BootEvent}
use kube_hardware_autoscaler.Machine.Run.{Env, Machine}
use kube_hardware_autoscaler.Machine.Commands.{issued}
use kube_hardware_autoscaler.Machine.Events.{manual_change, boot}
use kube_hardware_autoscaler.Machine.Events.Commands.{issued-manual_change, boot-BootCommands}
use kube_hardware_autoscaler.Machine.Events.Boot.{boot_phase}
use kube_hardware_autoscaler.Machine.Gates.{
  World, consistent, gate_consistency, gate_identity, identity_results,
}
use kube_hardware_autoscaler.Machine.Reconcile.{
  run, env_of, change_of, tracked, launch, after_reading, read_power, with_identity, with_chain,
  gated, reconcile,
}
use kube_hardware_autoscaler.Machine.Reconcile.Commands.{
  issued-run_refused, issued-run_booting, issued-gate_consistency, issued-gate_identity,
}

abbrev Status : Type 0
Status = NodePowerManagementConfigStatus

-- What a run may have issued without a Node.
abbrev pub BootOnly : List PowerAction → Machine → Type 0
BootOnly before s =
    (issued s ≡ before)
    ⊎ ((s.st.phase ≡ Phase.boot_failed)
        × ((issued s ≡ PowerAction.power_off ∷ before)
            ⊎ (issued s ≡ PowerAction.force_off ∷ before)))

run_without_node :
    (env : Env) (found agrees : Bool) (c : ManualChange) (e : BootEvent) (s : Machine)
    → found ≡ false
    → BootOnly (issued s) (run env found agrees c e s).1
run_without_node env found agrees c e s missing =
    elim (Option-cases (boot env e (manual_change env c s)).0) [
      | inl h ↦
          inl (issued-run_refused env found agrees c e s (ap (λ b. not b || not agrees) missing) h)
      | inr (r, h) ↦
          let t = manual_change env c s in
          rw (issued-run_booting env found agrees c e s r h) (
            ground (
              arith,
              boot-BootCommands env e t,
              boot_phase env e t h,
              issued-manual_change env c s,
            ))
    ]

launch_without_node :
    (w : World) (chain : PowerChain) (agrees : Bool) (s : Machine)
    → w.node ≡ none
    → BootOnly (issued s) (launch w chain agrees s).1
unfolding launch
launch_without_node w chain agrees s h =
    let (event, st) = tracked w s.st in
    run_without_node (env_of w chain s.st) (is_some w.node) agrees (change_of w s.st) event
      (record s { st = st }) (ap is_some h)

after_reading_without_node :
    (w : World) (chain : PowerChain) (s : Machine)
    → w.node ≡ none
    → issued s ≡ []
    → BootOnly [] (after_reading w chain s).1
unfolding after_reading
after_reading_without_node w chain s h none_yet =
    let agrees = consistent w s.st in
    let t = gate_consistency w agrees s in
    subst (λ before. BootOnly before (launch w chain agrees t).1)
      (issued-gate_consistency w agrees s ∙ none_yet) (launch_without_node w chain agrees t h)

read_power_without_node :
    (w : World) (chain : PowerChain) (r : _) (s : Machine)
    → w.node ≡ none
    → issued s ≡ []
    → BootOnly [] (read_power w chain r s).1
unfolding read_power
read_power_without_node w chain (ok o) s h e = after_reading_without_node w chain _ h e
read_power_without_node w chain (err x) s h e = inl e

with_chain_without_node :
    (w : World) (r : _) (s : Machine)
    → w.node ≡ none
    → issued s ≡ []
    → BootOnly [] (with_chain w r s).1
unfolding with_chain with_identity
with_chain_without_node w (ok chain) s h e =
    let results = identity_results w chain in
    let chain' = disable_mismatched chain results in
    read_power_without_node w chain' (Chain.power_state chain') (gate_identity w results s) h
      (issued-gate_identity w results s ∙ e)
with_chain_without_node w (err x) s h e = inl e

-- Gate 1: a reconcile of a machine whose Node does not exist never turns the machine on or suspends
-- it. Either it issues no power command, or the machine ends in the phase BootFailed and the one
-- command is a PowerOff or a ForceOff.
pub missing_node_only_boot_failure : (w : World) → w.node ≡ none → BootOnly [] (reconcile w).1
unfolding reconcile
missing_node_only_boot_failure w h =
    with_chain_without_node w (Chain.build w.build_driver w.op_timeout w.spec.power_interfaces)
      (record { st = gated w; log = [] }) h refl

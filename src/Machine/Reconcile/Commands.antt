-- ===== src/Machine/Reconcile/Commands.antt =====
-- The power commands of one `reconcile` (src/controller/node_power_management_config.rs).
use kube_hardware_autoscaler.Base.{
  ℕ, ◌≤◌, Bool, true, not, ◌||◌, is_some, ◌≡◌, refl, ◌∙◌, inl, inr, Option, none, some, List, [],
  arith, length, Bool-cases, Option-cases,
}
use kube_hardware_autoscaler.Crd.Enums.{PowerAction, PowerTarget}
use kube_hardware_autoscaler.Drivers.Driver.{ok, err}
use kube_hardware_autoscaler.Drivers.Chain
use kube_hardware_autoscaler.Drivers.Chain.{PowerChain, Checked, disable_mismatched}
use kube_hardware_autoscaler.Machine.Rules.{ManualChange, managed_target}
use kube_hardware_autoscaler.Machine.Boot.{BootEvent}
use kube_hardware_autoscaler.Machine.Run.{Env, Machine}
use kube_hardware_autoscaler.Machine.Commands.{issued, AtMostOne}
use kube_hardware_autoscaler.Machine.On.Commands.{ensure_on-OnCommands}
use kube_hardware_autoscaler.Machine.Off.Commands.{ensure_off-OffCommands}
use kube_hardware_autoscaler.Machine.Events.{manual_change, boot}
use kube_hardware_autoscaler.Machine.Events.Commands.{
  issued-manual_change, issued-observe, issued-boot, boot-BootCommands,
}
use kube_hardware_autoscaler.Machine.Gates.{
  World, gate_identity, gate_consistency, consistent, identity_results,
}
use kube_hardware_autoscaler.Machine.Reconcile.{
  refuse_acting, drive, manage, run, after_reading, read_power, with_identity, with_chain,
  reconcile, env_of, change_of, tracked, launch, gated,
}

module _ (env : Env) where
  drive-AtMostOne : (t : Option PowerTarget) (s : Machine) → AtMostOne env s (drive env t s).1
  unfolding drive
  drive-AtMostOne none s = inl (issued-observe env s)
  drive-AtMostOne (some PowerTarget.on) s = elim (ensure_on-OnCommands env s) [
    | inl e ↦ inl e
    | inr (inl e) ↦ inr (PowerAction.power_on, e)
    | inr (inr e) ↦ inr (PowerAction.force_off, e)
  ]
  drive-AtMostOne (some PowerTarget.off) s = elim (ensure_off-OffCommands env s) [
    | inl e ↦ inl e
    | inr (inl e) ↦ inr (PowerAction.power_off, e)
    | inr (inr (inl e)) ↦ inr (PowerAction.standby, e)
    | inr (inr (inr e)) ↦ inr (PowerAction.force_off, e)
  ]

  -- Where a gate has failed, the state machine only reports.
  pub issued-manage :
      (found agrees : Bool) (s : Machine)
      → (not found || not agrees) ≡ true
      → issued (manage env found agrees s).1 ≡ issued s
  unfolding manage
  issued-manage found agrees s h = rw h (issued-observe env (refuse_acting env found s))

  manage-AtMostOne :
      (found agrees : Bool) (s : Machine) → AtMostOne env s (manage env found agrees s).1
  unfolding manage
  manage-AtMostOne found agrees s = elim (Bool-cases (not found || not agrees)) [
    | inl h ↦ inl (issued-manage found agrees s h)
    | inr h ↦ rw h (drive-AtMostOne (managed_target env.spec.power_policy s.st env.manual_policy) s)
  ]

  boot-AtMostOne : (e : BootEvent) (s : Machine) → AtMostOne env s (boot env e s).1
  boot-AtMostOne e s = elim (boot-BootCommands env e s) [
    | inl h ↦ inl h
    | inr (inl h) ↦ inr (PowerAction.power_off, h)
    | inr (inr h) ↦ inr (PowerAction.force_off, h)
  ]

  AtMostOne-after : (s t u : Machine) → issued t ≡ issued s → AtMostOne env t u → AtMostOne env s u
  AtMostOne-after s t u h (inl e) = inl (e ∙ h)
  AtMostOne-after s t u h (inr (a, e)) = inr (a, rw h at e)

  run-AtMostOne :
      (found agrees : Bool) (c : ManualChange) (e : BootEvent) (s : Machine)
      → AtMostOne env s (run env found agrees c e s).1
  unfolding run
  run-AtMostOne found agrees c e s =
      let t = manual_change env c s in
      let (requeue, u) = boot env e t in
      elim (Option-cases requeue) [
        | inl h ↦ rw h (
            AtMostOne-after s u (manage env found agrees u).1
              (issued-boot env e t h ∙ issued-manual_change env c s)
              (manage-AtMostOne found agrees u))
        | inr (r, h) ↦
            rw h (AtMostOne-after s t u (issued-manual_change env c s) (boot-AtMostOne e t))
      ]

  -- The boot handler has something to do: nothing else is done.
  pub issued-run_booting :
      (found agrees : Bool) (c : ManualChange) (e : BootEvent) (s : Machine) (r : ℕ)
      → (boot env e (manual_change env c s)).0 ≡ some r
      → (run env found agrees c e s).1 ≡ (boot env e (manual_change env c s)).1
  unfolding run
  issued-run_booting found agrees c e s r h = rw h

  -- A gate has failed, and the boot handler has nothing to do: nothing is issued.
  pub issued-run_refused :
      (found agrees : Bool) (c : ManualChange) (e : BootEvent) (s : Machine)
      → (not found || not agrees) ≡ true
      → (boot env e (manual_change env c s)).0 ≡ none
      → issued (run env found agrees c e s).1 ≡ issued s
  unfolding run
  issued-run_refused found agrees c e s g h =
      let t = manual_change env c s in
      let u = (boot env e t).1 in
      rw h (issued-manage found agrees u g ∙ issued-boot env e t h ∙ issued-manual_change env c s)

pub issued-gate_identity :
    (w : World) (results : List Checked) (s : Machine)
    → issued (gate_identity w results s) ≡ issued s
unfolding gate_identity
issued-gate_identity w results s = ground arith

pub issued-gate_consistency :
    (w : World) (agrees : Bool) (s : Machine) → issued (gate_consistency w agrees s) ≡ issued s
unfolding gate_consistency
issued-gate_consistency w agrees s = ground arith

-- No command of this run, or one.
abbrev Single : Bool → Machine → Type 0
Single dry_run s = (length (issued s) ≤ 1) × (dry_run ≡ true → issued s ≡ [])

AtMostOne-Single :
    (env : Env) (s s' : Machine) → issued s ≡ [] → AtMostOne env s s' → Single env.dry_run s'
AtMostOne-Single env s s' h (inl e) = ground arith
AtMostOne-Single env s s' h (inr (a, e)) = ground arith

launch-Single :
    (w : World) (chain : PowerChain) (agrees : Bool) (s : Machine)
    → issued s ≡ []
    → Single w.dry_run (launch w chain agrees s).1
unfolding launch
launch-Single w chain agrees s h =
    let env = env_of w chain s.st in
    let (event, st) = tracked w s.st in
    let t : Machine = record s { st = st } in
    let found = is_some w.node in
    AtMostOne-Single env t (run env found agrees (change_of w s.st) event t).1 h
      (run-AtMostOne env found agrees (change_of w s.st) event t)

after_reading-Single :
    (w : World) (chain : PowerChain) (s : Machine)
    → issued s ≡ []
    → Single w.dry_run (after_reading w chain s).1
unfolding after_reading
after_reading-Single w chain s h =
    let agrees = consistent w s.st in
    launch-Single w chain agrees (gate_consistency w agrees s)
      (issued-gate_consistency w agrees s ∙ h)

read_power-Single :
    (w : World) (chain : PowerChain) (r : _) (s : Machine)
    → issued s ≡ []
    → Single w.dry_run (read_power w chain r s).1
unfolding read_power
read_power-Single w chain (ok o) s h = after_reading-Single w chain _ h
read_power-Single w chain (err e) s h = ground arith

with_chain-Single :
    (w : World) (r : _) (s : Machine) → issued s ≡ [] → Single w.dry_run (with_chain w r s).1
unfolding with_chain with_identity
with_chain-Single w (ok chain) s h =
    let results = identity_results w chain in
    let chain' = disable_mismatched chain results in
    read_power-Single w chain' (Chain.power_state chain') (gate_identity w results s)
      (issued-gate_identity w results s ∙ h)
with_chain-Single w (err e) s h = ground arith

reconcile-Single : (w : World) → Single w.dry_run (reconcile w).1
unfolding reconcile
reconcile-Single w =
    with_chain-Single w (Chain.build w.build_driver w.op_timeout w.spec.power_interfaces)
      (record { st = gated w; log = [] }) refl

-- One reconcile issues at most one power command, whatever it reads and however its calls answer.
pub reconcile_one_command : (w : World) → length (issued (reconcile w).1) ≤ 1
reconcile_one_command w = (reconcile-Single w).0

-- A dry run issues no power command.
pub reconcile_dry_run : (w : World) → w.dry_run ≡ true → issued (reconcile w).1 ≡ []
reconcile_dry_run w h = (reconcile-Single w).1 h

-- ===== src/Machine/Reconcile/Safety.antt =====
-- The safety gates of `reconcile` and the power commands (src/controller/
-- node_power_management_config.rs).
use kube_hardware_autoscaler.Base.{
  ℕ, Bool, true, false, not, ◌||◌, ◌≡◌, ◌≢◌, refl, ◌∙◌, inl, inr, Option, none, some, arith,
  is_some, is_some_and, if◌then◌else◌, Bool-cases,
}
use kube_hardware_autoscaler.Base.Int.{ℤ, pos, leb_ℤ}
use kube_hardware_autoscaler.Base.Time.{num_seconds}
use kube_hardware_autoscaler.Crd.Enums.{PowerState}
use kube_hardware_autoscaler.Crd.Status.{PowerActionRecord, NodePowerManagementConfigStatus}
use kube_hardware_autoscaler.Drivers.Chain.{PowerChain}
use kube_hardware_autoscaler.Machine.Rules.{ManualChange, power_state_consistent, takes_off}
use kube_hardware_autoscaler.Machine.Boot.{failed, track_boot}
use kube_hardware_autoscaler.Machine.Run.{Machine}
use kube_hardware_autoscaler.Machine.Commands.{issued}
use kube_hardware_autoscaler.Machine.Events.{manual_change}
use kube_hardware_autoscaler.Machine.Events.Boot.{manual_change_ready, boot_ready}
use kube_hardware_autoscaler.Machine.Gates.{World, consistent, gate_consistency}
use kube_hardware_autoscaler.Machine.Reconcile.{
  env_of, change_of, tracked, boot_timeout_of, seen_off, launch, after_reading,
}
use kube_hardware_autoscaler.Machine.Reconcile.Commands.{
  issued-run_refused, issued-gate_consistency,
}

abbrev Status : Type 0
Status = NodePowerManagementConfigStatus

-- A Node that is Ready has no failed boot.
track_boot_ready :
    (st : Status) (now t : ℕ)
    → st.node_ready ≡ true
    → ((track_boot st now t).0 ≢ failed) × ((track_boot st now t).1.node_ready ≡ true)
unfolding track_boot
track_boot_ready st now t h = ground arith

or_true : (b : Bool) → (b || true) ≡ true
or_true true = refl
or_true false = refl

-- The interface reads Off while the Node is alive: Ready, with a fresh lease, and no power-off of
-- ours in the last 90 seconds.
pub record Contradicts (w : World) (st : Status) : Type 0 where
  pub off : st.power_state ≡ PowerState.off
  pub ready : st.node_ready ≡ true
  pub age : ℤ
  pub lease : w.lease_age ≡ some age
  pub fresh : leb_ℤ age (pos 15) ≡ true
  pub not_ours :
      (a : PowerActionRecord)
      → st.last_power_action ≡ some a
      → takes_off a.action ≡ true
      → leb_ℤ (num_seconds w.now a.time) (pos 90) ≡ false

not_recent :
    (w : World) (st : Status) (o : Option PowerActionRecord)
    → ((a : PowerActionRecord)
        → o ≡ some a
        → takes_off a.action ≡ true
        → leb_ℤ (num_seconds w.now a.time) (pos 90) ≡ false)
    → is_some_and
        (elim o as (λ _. Option ℤ) [
          | none ↦ none
          | some a ↦ if takes_off a.action then some (num_seconds w.now a.time) else none
        ])
        (λ s. leb_ℤ s (pos 90))
      ≡ false
not_recent w st none h = refl
not_recent w st (some a) h = elim (Bool-cases (takes_off a.action)) [
  | inl e ↦ rw e (h a refl e)
  | inr e ↦ rw e
]

inconsistent_of : (w : World) (st : Status) → Contradicts w st → consistent w st ≡ false
unfolding consistent power_state_consistent
inconsistent_of w st c =
    simp (c.off, c.ready, c.lease, c.fresh, not_recent w st st.last_power_action c.not_ours)

seen_off_ready : (c : ManualChange) (st : Status) → (seen_off c st).node_ready ≡ st.node_ready
seen_off_ready c st = ground arith

tracked_ready :
    (w : World) (st : Status)
    → st.node_ready ≡ true
    → ((tracked w st).0 ≢ failed) × ((tracked w st).1.node_ready ≡ true)
tracked_ready w st h =
    track_boot_ready (seen_off (change_of w st) st) w.now (boot_timeout_of w st)
      (seen_off_ready (change_of w st) st ∙ h)

-- A failed gate and a Ready Node: the run only reports.
launch_refused :
    (w : World) (chain : PowerChain) (s : Machine)
    → s.st.node_ready ≡ true
    → issued (launch w chain false s).1 ≡ issued s
unfolding launch
launch_refused w chain s h =
    let env = env_of w chain s.st in
    let c = change_of w s.st in
    let (event, st) = tracked w s.st in
    let t : Machine = record s { st = st } in
    let (fine, ready) = tracked_ready w s.st h in
    issued-run_refused env (is_some w.node) false c event t (or_true (not (is_some w.node)))
      (boot_ready env event (manual_change env c t) fine (manual_change_ready env c t ∙ ready))

gate_consistency_ready :
    (w : World) (agrees : Bool) (s : Machine)
    → (gate_consistency w agrees s).st.node_ready ≡ s.st.node_ready
unfolding gate_consistency
gate_consistency_ready w agrees s = ground arith

-- Gate 4 holds: where the interface reads Off while the Node's kubelet is demonstrably alive and no
-- power-off of ours explains it, no power command is issued.
pub contradiction_issues_nothing :
    (w : World) (chain : PowerChain) (s : Machine)
    → Contradicts w s.st
    → issued (after_reading w chain s).1 ≡ issued s
unfolding after_reading
contradiction_issues_nothing w chain s c = rw (inconsistent_of w s.st c) (
    launch_refused w chain (gate_consistency w false s) (gate_consistency_ready w false s ∙ c.ready)
    ∙ issued-gate_consistency w false s)

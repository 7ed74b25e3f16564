-- ===== src/Pool/Tests.antt =====
-- Cycles of two overlapping pools (src/controller/node_scaling_pool.rs).
use kube_hardware_autoscaler.Base.{
  ℕ, Bool, true, false, ◌≡◌, refl, inl, none, some, List, [], ◌∷◌, Among,
}
use kube_hardware_autoscaler.Crd.Amounts.{ResourceAmounts}
use kube_hardware_autoscaler.Crd.Enums.{Phase, DecisionAction}
use kube_hardware_autoscaler.Crd.Status.{NodePowerManagementConfigStatus}
use kube_hardware_autoscaler.Membership.{Pool, resolve}
use kube_hardware_autoscaler.Scaling.Order.{power_on_order, deciding_rule}
use kube_hardware_autoscaler.Scaling.Fit.{pod_matches_node}
use kube_hardware_autoscaler.Crd.Selector.{matches}
use kube_hardware_autoscaler.Crd.Amounts.{minus}
use kube_hardware_autoscaler.Crd.Spec.{hold_after_power_on, node_weight}
use kube_hardware_autoscaler.Crd.Effective.{
  effective_boot_timeout, effective_manual_power_off_cooldown, effective_manual_power_on_policy,
}
use kube_hardware_autoscaler.Machine.Rules.{s3_capable}
use kube_hardware_autoscaler.Scaling.Up.{only_one, power_on, fill_min, place_pods}
use kube_hardware_autoscaler.Scaling.Moves.{fit_all}
use kube_hardware_autoscaler.Scaling.Idle.{blocked_reason, down_note, waiting_for_registration}
use kube_hardware_autoscaler.Scaling.Down.{Off, underused, scale_down, remove_all, remove_one}
use kube_hardware_autoscaler.Pool.States.{member_state, classify}
use kube_hardware_autoscaler.Pool.Agreement.{other_pools_holding}
use kube_hardware_autoscaler.Pool.Decisions.{PlannedDecision}
use kube_hardware_autoscaler.Pool.Reconcile.{
  Config, View, is_managed, member_of, build_member, load_of, kept_from, snapshot,
}
use kube_hardware_autoscaler.Pool.Reconcile.Agreed.{Agreed, power_off-Agreed}
use kube_hardware_autoscaler.Samples.{noon, config_spec, status_in, node, pool_named}

abbrev resting : NodePowerManagementConfigStatus
resting = status_in Phase.off false

abbrev this_pool : Pool
this_pool = pool_named "a" []

-- The other pool lets the machine go.
abbrev pools : List Pool
pools = this_pool ∷ pool_named "b" ("m1" ∷ []) ∷ []

nobody_holds : other_pools_holding "m1" ("a" ∷ "b" ∷ []) "a" pools ≡ []
unfolding other_pools_holding
nobody_holds = refl

abbrev power_up : PlannedDecision
power_up = record {
  action = DecisionAction.power_on;
  node = some "m1";
  reason = "unschedulable pod";
  live_reason = "unschedulable pod";
  candidates = "";
}

abbrev config : Config
config = record { name = "m1"; spec = config_spec; status = status_in Phase.on true }

abbrev cycle : View
cycle = record {
  now = noon;
  configs = config ∷ [];
  pools = pools;
  node = λ n. some node;
  ready_since = λ n. none;
  pods_on = λ n. [];
  pending = [];
  external = [];
}

abbrev never : ResourceAmounts → ResourceAmounts → ℕ → Bool
never a b n = false

abbrev gone : Off
gone = record { member = "m1"; cause = underused; rank = 1; decided = only_one }

gone_off : Among gone (scale_down never (snapshot cycle this_pool none (("m1", 0) ∷ []))).power_off
unfolding scale_down snapshot blocked_reason power_on fill_min place_pods remove_all down_note
    waiting_for_registration remove_one fit_all member_of resolve matches build_member classify
    member_state load_of kept_from other_pools_holding minus effective_boot_timeout
    effective_manual_power_off_cooldown effective_manual_power_on_policy hold_after_power_on
    s3_capable pod_matches_node power_on_order deciding_rule node_weight
gone_off = inl refl

managed : is_managed cycle this_pool config ≡ true
unfolding member_of resolve matches
managed = refl

power_off-Agreed_example : Agreed cycle this_pool config
power_off-Agreed_example =
    power_off-Agreed cycle this_pool never none (("m1", 0) ∷ []) gone config gone_off (inl refl)
      refl managed

-- ===== src/Machine/Gates.antt =====
-- What a reconcile reads, and its four safety gates (the first half of `reconcile`,
-- src/controller/node_power_management_config.rs).
use kube_hardware_autoscaler.Base.{
  ℕ, String, Bool, true, false, ◌&&◌, ◌||◌, not, Option, none, some, List, [], ◌∷◌, any, all,
  contains, insert, is_empty, is_some_and, str_eq, if◌then◌else◌,
}
use kube_hardware_autoscaler.Base.Int.{ℤ, pos, ltb_ℤ}
use kube_hardware_autoscaler.Base.Time.{Time, num_seconds}
use kube_hardware_autoscaler.Crd.Enums.{reads_off}
use kube_hardware_autoscaler.Crd.Texts.{DriverError}
use kube_hardware_autoscaler.Crd.Spec.{PowerInterface, NodePowerManagementConfigSpec}
use kube_hardware_autoscaler.Crd.Status.{NodePowerManagementConfigStatus, ScalingDecision}
use kube_hardware_autoscaler.Crd.Conditions.{set_condition, condition_is_true}
use kube_hardware_autoscaler.Cluster.{Node, Pod, node_ready}
use kube_hardware_autoscaler.Identity.{IdentityCheck, match, mismatch}
use kube_hardware_autoscaler.Drivers.Driver.{Result, PowerDriver}
use kube_hardware_autoscaler.Drivers.Chain.{PowerChain, Checked, check_identity}
use kube_hardware_autoscaler.Membership.{
  Pool, Membership, no_node, not_in_pool, member, pools_of, resolve,
}
use kube_hardware_autoscaler.Machine.Rules.{takes_off, power_state_consistent}
use kube_hardware_autoscaler.Machine.Run.{
  HostCommand, Probe, ApiError, NodeWrite, Machine, emit, update, event, cache_identity,
}

abbrev Status : Type 0
Status = NodePowerManagementConfigStatus

-- One reconcile reads the object, the caches, the identity cache and the Node's lease, and is
-- given the answers of what it calls.
pub record World : Type 0 where
  pub now : Time
  pub dry_run : Bool
  pub spec : NodePowerManagementConfigSpec
  pub old : Status
  pub node : Option Node
  pub pools : List Pool
  pub pods : List Pod
  pub build_driver : PowerInterface → Result PowerDriver DriverError
  pub op_timeout : ℕ
  pub cached_identity : Option (List (String × IdentityCheck))
  pub lease_age : Option ℤ
  pub run_in_band : HostCommand → Result (Unit {0}) DriverError
  pub probe : Result Probe String
  pub write : NodeWrite → Result (Unit {0}) ApiError

abbrev pub cond_node_found : String
cond_node_found = "NodeFound"

abbrev pub cond_pool_membership : String
cond_pool_membership = "PoolMembership"

abbrev pub cond_identity_verified : String
cond_identity_verified = "IdentityVerified"

abbrev pub cond_power_state_consistent : String
cond_power_state_consistent = "PowerStateConsistent"

abbrev put_condition : Time → String → String → String → Status → Status
put_condition now kind status reason st = record st {
  conditions = set_condition st.conditions kind status reason now;
}

-- Only non-zero amounts are remembered.
abbrev remember_extended : List (String × ℤ) → List (String × ℤ) → List (String × ℤ)
remember_extended [] known = known
remember_extended ((name, amount) ∷ rest) known =
    remember_extended rest (if ltb_ℤ (pos 0) amount then insert name amount known else known)

abbrev is_ready : Option Node → Bool
is_ready node = is_some_and node node_ready

-- Gate 1: the Node's facts, and the condition `NodeFound`.
unfoldable pub gate_node : World → Status → Status
gate_node w st =
    let seen = record st { node_ready = is_ready w.node } in
    elim w.node [
      | none ↦ put_condition w.now cond_node_found "False" "NodeNotFound" seen
      | some n ↦ put_condition w.now cond_node_found "True" "NodeFound" (record seen {
        allocatable =
            if ltb_ℤ (pos 0) n.allocatable.cpu_millis then some n.allocatable else seen.allocatable;
        extended_resources = remember_extended n.extended seen.extended_resources;
        node_labels = some n.labels;
      })
    ]

abbrev membership_of : World → Membership
membership_of w = resolve (elim w.node [ none ↦ none | some n ↦ some n.labels ]) w.pools

abbrev membership_condition : Time → Membership → Status → Status
membership_condition now (member ps) st = put_condition now cond_pool_membership "True" "InPool" st
membership_condition now not_in_pool st =
    put_condition now cond_pool_membership "False" "NotInPool" st
membership_condition now no_node st =
    put_condition now cond_pool_membership "False" "NodeNotFound" st

-- A decision only counts while the machine is still in the pool that made it.
abbrev drop_stale : List String → Option ScalingDecision → Option ScalingDecision
drop_stale pools none = none
drop_stale pools (some d) = if contains pools d.pool then some d else none

-- Gate 2: pool membership from the Node's labels.
unfoldable pub gate_membership : World → Status → Status
gate_membership w st =
    let pools = pools_of (membership_of w) in
    let seen = membership_condition w.now (membership_of w) (record st { pools = pools }) in
    record seen { scaling_decision = drop_stale pools seen.scaling_decision }

abbrev as_checked : List (String × IdentityCheck) → List Checked
as_checked [] = []
as_checked ((label, check) ∷ rs) = (label, check, true) ∷ as_checked rs

abbrev without_flag : List Checked → List (String × IdentityCheck)
without_flag [] = []
without_flag ((label, check, cacheable) ∷ rs) = (label, check) ∷ without_flag rs

node_uuid : Option Node → Option (List ℕ)
node_uuid none = none
node_uuid (some n) = n.system_uuid

-- Gate 3, the checks: from the cache, or asked of every interface and cached if all answered.
unfoldable pub identity_results : World → PowerChain → List Checked
unfolding node_uuid
identity_results w chain = elim w.cached_identity [
  | some cached ↦ as_checked cached
  | none ↦ check_identity chain (node_uuid w.node)
]

abbrev is_mismatch : Checked → Bool
is_mismatch (label, mismatch reported expected, cacheable) = true
is_mismatch (label, _, cacheable) = false

abbrev is_match : Checked → Bool
is_match (label, match, cacheable) = true
is_match (label, _, cacheable) = false

abbrev is_cacheable : Checked → Bool
is_cacheable (label, check, cacheable) = cacheable

store_identity : World → List Checked → Machine → Machine
store_identity w results s = elim w.cached_identity [
  | some cached ↦ s
  | none ↦ if all is_cacheable results then emit (cache_identity (without_flag results)) s else s
]

-- A mismatch is announced when it is new.
abbrev announces_mismatch : Status → Bool
announces_mismatch old =
    condition_is_true old.conditions cond_identity_verified
    || not (
        any (λ c. str_eq c.kind cond_identity_verified && str_eq c.reason "Mismatch")
          old.conditions)

-- Gate 3, the outcome: the condition `IdentityVerified` and its event.
unfoldable pub gate_identity : World → List Checked → Machine → Machine
unfolding store_identity
gate_identity w results s =
    let s' = store_identity w results s in
    if any is_mismatch results
    then update (put_condition w.now cond_identity_verified "False" "Mismatch")
        (if announces_mismatch w.old then emit (event "IdentityMismatch") s' else s')
    else if any is_match results
    then update (put_condition w.now cond_identity_verified "True" "Verified") s'
    else update (put_condition w.now cond_identity_verified "Unknown" "NotVerifiable") s'

abbrev since_off : World → Status → Option ℤ
since_off w st = elim st.last_power_action [
  | none ↦ none
  | some a ↦ if takes_off a.action then some (num_seconds w.now a.time) else none
]

-- The lease is read only where the reading may contradict the Node.
abbrev lease_read : World → Status → Option ℤ
lease_read w st = if reads_off st.power_state && st.node_ready then w.lease_age else none

-- Gate 4: whether the reading agrees with the Node.
unfoldable pub consistent : World → Status → Bool
consistent w st =
    power_state_consistent st.power_state st.node_ready (lease_read w st) (since_off w st)

abbrev pub announces_contradiction : Status → Bool
announces_contradiction old =
    condition_is_true old.conditions cond_power_state_consistent || is_empty old.conditions

unfoldable pub gate_consistency : World → Bool → Machine → Machine
gate_consistency w true s =
    update (put_condition w.now cond_power_state_consistent "True" "Consistent") s
gate_consistency w false s =
    update
      (put_condition w.now cond_power_state_consistent "False" "InterfaceReportsOffButNodeIsAlive")
      (if announces_contradiction w.old then emit (event "PowerStateMismatch") s else s)

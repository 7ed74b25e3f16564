-- ===== src/Pool/Reconcile.antt =====
-- One cycle of the pool controller (`build_member` and `reconcile`,
-- src/controller/node_scaling_pool.rs). `Ready` times, allocatable amounts and the views of the pods
-- come from the caches with their quantities parsed.
pub mod Agreed
use kube_hardware_autoscaler.Base.{
  ℕ, ◌+◌, ◌*◌, String, Bool, true, false, ◌&&◌, ◌||◌, not, Option, none, some, List, [], ◌∷◌, ◌++◌,
  map, filter, contains, lookup, insert, is_empty, is_some, is_some_and, unwrap_or, or_option,
  filter_option, ltb, if◌then◌else◌,
}
use kube_hardware_autoscaler.Base.Int.{ℤ, pos, ltb_ℤ, eqb_ℤ}
use kube_hardware_autoscaler.Base.Time.{Time, nanos}
use kube_hardware_autoscaler.Crd.Amounts.{ResourceAmounts, no_amounts, add}
use kube_hardware_autoscaler.Crd.Enums.{PowerTarget, ManualPowerOnPolicy, is_auto}
use kube_hardware_autoscaler.Crd.Spec.{
  NodePowerManagementConfigSpec, NodeScalingPoolSpec, ScaleDownSpec,
}
use kube_hardware_autoscaler.Crd.Effective.{
  effective_boot_timeout, effective_manual_power_on_policy, effective_manual_power_off_cooldown,
}
use kube_hardware_autoscaler.Crd.Status.{NodePowerManagementConfigStatus}
use kube_hardware_autoscaler.Cluster.{Node, Pod}
use kube_hardware_autoscaler.Membership.{Pool, Membership, pools_of, resolve}
use kube_hardware_autoscaler.Machine.Rules.{s3_capable}
use kube_hardware_autoscaler.Machine.Off.{block_text}
use kube_hardware_autoscaler.Scaling.Pods.{
  DrainClass, ignore, evict, block, drain_class, is_active, is_daemonset_pod,
}
use kube_hardware_autoscaler.Scaling.Fit.{PodView, explicitly_selects}
use kube_hardware_autoscaler.Scaling.Members.{MemberState, Member, ExternalNode, PoolSnapshot}
use kube_hardware_autoscaler.Pool.States.{Special, member_state, classify}
use kube_hardware_autoscaler.Pool.Agreement.{other_pools_holding}

-- A machine: `NodePowerManagementConfig`.
pub record Config : Type 0 where
  pub name : String
  pub spec : NodePowerManagementConfigSpec
  pub status : NodePowerManagementConfigStatus

-- What a cycle reads.
pub record View : Type 0 where
  pub now : Time
  pub configs : List Config
  pub pools : List Pool
  pub node : String → Option Node
  pub ready_since : Node → Option Time
  pub pods_on : String → List (Pod × PodView)
  pub pending : List PodView
  pub external : List ExternalNode

-- What the pods of a machine amount to.
pub record Load : Type 0 where
  pub requested : ResourceAmounts
  pub counted : ResourceAmounts
  pub movable : List PodView
  pub blocking : List String

abbrev no_load : Load
no_load = record { requested = no_amounts; counted = no_amounts; movable = []; blocking = [] }

abbrev pub Holds : Type 0
Holds = List (String × List (String × String))

module _ (w : View) (pool : Pool) where
  abbrev ignored : Pod × PodView → Bool
  ignored (pod, view) =
      (pool.spec.scale_down.ignore_daemon_set_utilization && is_daemonset_pod pod)
      || (pool.spec.scale_down.ignore_non_selecting_pod_utilization
          && not (explicitly_selects view pool.spec.node_selector))

  abbrev sort_pod : DrainClass → Pod → PodView → Load → Load
  sort_pod ignore pod view l = l
  sort_pod evict pod view l = record l { movable = l.movable ++ (view ∷ []) }
  sort_pod (block why) pod view l = record l { blocking = l.blocking ++ (block_text pod why ∷ []) }

  abbrev count_pod : Pod × PodView → Load → Load
  count_pod (pod, view) l = sort_pod (drain_class pod) pod view (record l {
    requested = add l.requested view.requests;
    counted = if ignored (pod, view) then l.counted else add l.counted view.requests;
  })

  -- The pods that are still active, in order.
  unfoldable pub load_of : List (Pod × PodView) → Load → Load
  load_of [] l = l
  load_of (p ∷ ps) l = load_of ps (if is_active p.0 then count_pod p l else l)

  abbrev member_pools : List String → List Pool
  member_pools names = filter (λ p. contains names p.name) w.pools

  abbrev boot_timeout : Config → List String → ℕ
  boot_timeout c names =
      effective_boot_timeout c.spec.lifecycle.boot_timeout_seconds
        (map (λ p. p.spec.scale_up.boot_timeout_seconds) (member_pools names))

  abbrev manual_policy : Config → List String → ManualPowerOnPolicy
  manual_policy c names =
      effective_manual_power_on_policy c.spec.manual_power_on_policy
        (map (λ p. p.spec.manual_power_on_policy) (member_pools names))

  abbrev cooldown : Config → List String → ℕ
  cooldown c names =
      effective_manual_power_off_cooldown c.spec.manual_power_off_cooldown_seconds
        (map (λ p. p.spec.manual_power_off_cooldown_seconds) (member_pools names))

  -- Devices that the machine had and does not report yet, soon after it became Ready.
  registering_of : Config → Node → ℕ → List (String × ℤ)
  registering_of c n timeout =
      if is_some_and (w.ready_since n) (λ t. ltb w.now (t + timeout * nanos))
      then filter
          (λ r. ltb_ℤ (pos 0) r.1 && eqb_ℤ (unwrap_or (lookup r.0 n.extended) (pos 0)) (pos 0))
          c.status.extended_resources
      else []

  abbrev allocatable_of : Config → Node → ResourceAmounts
  allocatable_of c n =
      unwrap_or
        (or_option (filter_option (some n.allocatable) (λ a. ltb_ℤ (pos 0) a.cpu_millis))
          c.status.allocatable)
        no_amounts

  member_on : Config → List String → Node → Member
  unfolding registering_of
  member_on c names n =
      let load = load_of (w.pods_on c.spec.node_name) no_load in
      let base = member_state c.spec.power_policy c.status names in
      let special =
        classify c.status base (manual_policy c names) pool.spec (cooldown c names) w.now in
      record {
        name = c.name;
        state = unwrap_or special.state base;
        auto = is_auto c.spec.power_policy;
        labels = n.labels;
        taints = n.taints;
        allocatable = allocatable_of c n;
        requested = load.requested;
        counted = load.counted;
        movable_pods = load.movable;
        blocking_pods = load.blocking;
        drain_failed_at = c.status.drain_failed_at;
        s3_capable = s3_capable c.status w.now;
        registering = registering_of c n (boot_timeout c names);
        adopted_at = special.adopted_at;
        release_after = special.release_after;
      }

  unfoldable pub build_member : Config → List String → Option Member
  unfolding member_on
  build_member c names = elim (w.node c.spec.node_name) [
    | none ↦ none
    | some n ↦ some (member_on c names n)
  ]

  labels_of : Option Node → Option (List (String × String))
  labels_of none = none
  labels_of (some n) = some n.labels

  -- The pools that select the machine.
  unfoldable pub member_of : Config → List String
  unfolding labels_of
  member_of c = pools_of (resolve (labels_of (w.node c.spec.node_name)) w.pools)

  abbrev pub is_managed : Config → Bool
  is_managed c = contains (member_of c) pool.name

  abbrev pub holds_for : Config → List (String × String)
  holds_for c = other_pools_holding c.name (member_of c) pool.name w.pools

  abbrev pub note_holds : Config → Holds → Holds
  note_holds c kept =
      if is_managed c && not (is_empty (holds_for c))
      then insert c.name (holds_for c) kept
      else kept

  -- `kept_by_others`, machine by machine.
  unfoldable pub kept_from : List Config → Holds → Holds
  kept_from [] kept = kept
  kept_from (c ∷ cs) kept = kept_from cs (note_holds c kept)

  abbrev push_member : Option Member → List Member → List Member
  push_member none ms = ms
  push_member (some m) ms = m ∷ ms

  members_of : List Config → List Member
  members_of [] = []
  members_of (c ∷ cs) =
      let rest = members_of cs in
      if is_managed c then push_member (build_member c (member_of c)) rest else rest

  -- The snapshot that `plan` is given.
  unfoldable pub snapshot : Option Time → List (String × Time) → PoolSnapshot
  unfolding members_of
  snapshot last_scale_up unneeded_since = record {
    spec = pool.spec;
    members = members_of w.configs;
    pending = w.pending;
    now = w.now;
    last_scale_up = last_scale_up;
    unneeded_since = unneeded_since;
    external = w.external;
    kept_by_others = kept_from w.configs [];
  }

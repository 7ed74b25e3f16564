-- ===== src/Scaling/Members.antt =====
-- The snapshot of a pool that `plan` decides on (src/scaling.rs). What only explains a decision to
-- people (`note`, `woken_by`, and the texts of the plan) is left out.
use kube_hardware_autoscaler.Base.{ℕ, String, Bool, ◌&&◌, ◌||◌, ◌==◌, Option, List}
use kube_hardware_autoscaler.Base.Int.{ℤ}
use kube_hardware_autoscaler.Base.Time.{Time}
use kube_hardware_autoscaler.Crd.Amounts.{ResourceAmounts, fits}
use kube_hardware_autoscaler.Crd.Selector.{Labels}
use kube_hardware_autoscaler.Crd.Spec.{NodeScalingPoolSpec}
use kube_hardware_autoscaler.Cluster.{Taint}
use kube_hardware_autoscaler.Scaling.Fit.{PodView, pod_matches_node}

pub data MemberState : Type 0 where
  online booting offline leaving unavailable manual : MemberState

abbrev state_index : MemberState → ℕ
state_index MemberState.online = 0
state_index MemberState.booting = 1
state_index MemberState.offline = 2
state_index MemberState.leaving = 3
state_index MemberState.unavailable = 4
state_index MemberState.manual = 5

abbrev pub state_eq : MemberState → MemberState → Bool
state_eq a b = state_index a == state_index b

pub record Member : Type 0 where
  pub name : String
  pub state : MemberState
  pub auto : Bool
  pub labels : Labels
  pub taints : List Taint
  pub allocatable : ResourceAmounts
  pub requested : ResourceAmounts
  pub counted : ResourceAmounts
  pub movable_pods : List PodView
  pub blocking_pods : List String
  pub drain_failed_at : Option Time
  pub s3_capable : Bool
  pub registering : List (String × ℤ)
  pub adopted_at : Option Time
  pub release_after : Option Time

pub record ExternalNode : Type 0 where
  pub name : String
  pub labels : Labels
  pub taints : List Taint
  pub free : ResourceAmounts

-- `kept_by_others` holds, for a member, the pools that keep it on with their reasons.
pub record PoolSnapshot : Type 0 where
  pub spec : NodeScalingPoolSpec
  pub members : List Member
  pub pending : List PodView
  pub now : Time
  pub last_scale_up : Option Time
  pub unneeded_since : List (String × Time)
  pub external : List ExternalNode
  pub kept_by_others : List (String × List (String × String))

abbrev pub pod_fits : PodView → Member → ResourceAmounts → Bool
pod_fits pod m free = fits free pod.requests && pod_matches_node pod m.labels m.taints

-- Online or booting: what counts towards `minOnline` and `maxOnline`.
abbrev pub counts_online : Member → Bool
counts_online m = state_eq m.state MemberState.online || state_eq m.state MemberState.booting

-- Where evicted pods may go.
abbrev pub hosts_evicted : Member → Bool
hosts_evicted m = state_eq m.state MemberState.online || state_eq m.state MemberState.manual

abbrev pub may_power_on : Member → Bool
may_power_on m = m.auto && state_eq m.state MemberState.offline

abbrev pub may_power_off : Member → Bool
may_power_off m = m.auto && state_eq m.state MemberState.online

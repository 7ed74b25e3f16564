-- ===== src/Scaling/Up.antt =====
-- Scaling up: the first half of `plan` (src/scaling.rs). Settings in seconds are in the range where
-- `Duration::seconds` does not panic.
pub mod Limits
pub mod Choice
use kube_hardware_autoscaler.Base.{
  ℕ, suc, ◌+◌, ◌*◌, ◌%◌, max, String, Bool, true, false, ◌&&◌, ◌||◌, not, Option, none, some, List,
  [], ◌∷◌, ◌++◌, map, str_eq, ltb, leb, any, filter, find, head?, length, is_none_or, unwrap_or,
  if◌then◌else◌,
}
use kube_hardware_autoscaler.Base.Time.{nanos}
use kube_hardware_autoscaler.Crd.Amounts.{ResourceAmounts, minus}
use kube_hardware_autoscaler.Crd.Spec.{NodeScalingPoolSpec}
use kube_hardware_autoscaler.Scaling.Fit.{PodView, explicitly_selects}
use kube_hardware_autoscaler.Scaling.Members.{
  MemberState, Member, PoolSnapshot, state_eq, pod_fits, counts_online, may_power_on,
}
use kube_hardware_autoscaler.Scaling.Order.{
  Rule, power_on_order, sort_by, largest_first, deciding_rule,
}

-- `usize::MAX` where no limit is set.
abbrev pub max_online : NodeScalingPoolSpec → ℕ
max_online spec = unwrap_or spec.max_online 18446744073709551615

abbrev pub up_step : NodeScalingPoolSpec → ℕ
up_step spec = max spec.scale_up.max_nodes_per_step 1

-- `len() as u32`.
abbrev pub as_u32 : ℕ → ℕ
as_u32 n = n % 4294967296

pub data Decided : Type 0 where
  over : (next : String) (by : Rule) → Decided
  only_one : Decided

pub data OnCause : Type 0 where
  unschedulable : (namespace name : String) → OnCause
  below_min : OnCause

-- A machine to power on, with the parts of its reason: the cause, its rank, and what decided.
pub record Opened : Type 0 where
  pub member : String
  pub cause : OnCause
  pub rank : ℕ
  pub decided : Decided

pub data Unplaced : Type 0 where
  disabled reached_max reached_step no_machine : Unplaced

abbrev Bins : Type 0
Bins = List (Member × ResourceAmounts)

pub record Opening : Type 0 where
  pub bins : Bins
  pub offline : List Member
  pub opened : List Opened
  pub unplaced : List (PodView × Unplaced)

module _ (s : PoolSnapshot) where
  abbrev pub online_now : ℕ
  online_now = length (filter counts_online s.members)

  abbrev past_grace : PodView → Bool
  past_grace p =
      is_none_or p.created (λ c. leb (c + s.spec.scale_up.pending_pod_grace_seconds * nanos) s.now)

  -- Pending pods that this pool cares about.
  abbrev pub selected : List PodView
  selected =
      filter
        (λ p.
          not s.spec.scale_up.require_explicit_selection
          || explicitly_selects p s.spec.node_selector)
        (filter past_grace s.pending)

  abbrev could_host : PodView → Member → Bool
  could_host p m =
      pod_fits p m m.allocatable && (state_eq m.state MemberState.booting || may_power_on m)

  -- The selected pods that a booting or offline machine could host.
  abbrev pub relevant : List PodView
  relevant = filter (λ p. any (could_host p) s.members) selected

  abbrev booting_bins : Bins
  booting_bins =
      map (λ m. (m, minus m.allocatable m.requested))
        (filter (λ m. state_eq m.state MemberState.booting) s.members)

  -- `ranked_up`, which is what `offline` starts as.
  abbrev pub ranked_up : List Member
  ranked_up = sort_by (power_on_order s.spec) (filter may_power_on s.members)

  -- `position(..).unwrap_or(0) + 1` by name.
  abbrev pub rank_in : List Member → String → Option ℕ
  rank_in [] name = none
  rank_in (m ∷ ms) name =
      if str_eq m.name name
      then some 0
      else elim (rank_in ms name) [ none ↦ none | some n ↦ some (suc n) ]

  abbrev rank_up : Member → ℕ
  rank_up m = unwrap_or (rank_in ranked_up m.name) 0 + 1

  -- The first bin with room takes the pod.
  abbrev pub place : PodView → Bins → Option Bins
  place pod [] = none
  place pod ((m, free) ∷ bins) =
      let rest = place pod bins in
      if pod_fits pod m free
      then some ((m, minus free pod.requests) ∷ bins)
      else elim rest [ none ↦ none | some bins' ↦ some ((m, free) ∷ bins') ]

  -- Why no further machine may be opened.
  abbrev pub can_open : List Opened → Option Unplaced
  can_open opened =
      if leb (max_online s.spec) (online_now + length opened)
      then some reached_max
      else if leb (up_step s.spec) (as_u32 (length opened))
      then some reached_step
      else none

  -- The first machine that the pod fits on: the machine, those before it and those after it.
  abbrev pub take_first : PodView → List Member → Option (Member × List Member × List Member)
  take_first pod [] = none
  take_first pod (m ∷ ms) =
      let rest = take_first pod ms in
      if pod_fits pod m m.allocatable
      then some (m, [], ms)
      else elim rest [ none ↦ none | some found ↦ some (found.0, m ∷ found.1, found.2) ]

  abbrev decided_over : Member → Option Member → Decided
  decided_over m none = only_one
  decided_over m (some next) = over next.name (deciding_rule s.spec m next false)

  abbrev pub opened_for : PodView → Member → List Member → Opened
  opened_for pod m after = record {
    member = m.name;
    cause = unschedulable pod.namespace pod.name;
    rank = rank_up m;
    decided = decided_over m (find (λ n. pod_fits pod n n.allocatable) after);
  }

  abbrev open_for : PodView → Member → List Member → List Member → Opening → Opening
  open_for pod m before after o = record o {
    offline = before ++ after;
    opened = o.opened ++ (opened_for pod m after ∷ []);
    bins = o.bins ++ ((m, minus m.allocatable pod.requests) ∷ []);
  }

  abbrev leave : PodView → Unplaced → Opening → Opening
  leave pod why o = record o { unplaced = o.unplaced ++ ((pod, why) ∷ []) }

  -- The machine found for the pod is opened.
  open_found : PodView → Option (Member × List Member × List Member) → Opening → Opening
  open_found pod none o = leave pod no_machine o
  open_found pod (some found) o = open_for pod found.0 found.1 found.2 o

  open_unless : PodView → Option Unplaced → Opening → Opening
  unfolding open_found
  open_unless pod (some why) o = leave pod why o
  open_unless pod none o = open_found pod (take_first pod o.offline) o

  place_in : PodView → Option Bins → Opening → Opening
  unfolding open_unless
  place_in pod (some bins) o = record o { bins = bins }
  place_in pod none o = open_unless pod (can_open o.opened) o

  -- One pod of the loop.
  unfoldable pub place_pod : PodView → Opening → Opening
  unfolding place_in
  place_pod pod o =
      if not s.spec.scale_up.enabled
      then leave pod disabled o
      else place_in pod (place pod o.bins) o

  unfoldable pub place_pods : List PodView → Opening → Opening
  place_pods [] o = o
  place_pods (p ∷ ps) o = place_pods ps (place_pod p o)

  abbrev pub wants_more : List Opened → Bool
  wants_more opened =
      ltb (online_now + length opened) s.spec.min_online
      && ltb (online_now + length opened) (max_online s.spec)

  abbrev pub filled : Member → List Member → Opened
  filled m rest = record {
    member = m.name;
    cause = below_min;
    rank = rank_up m;
    decided = decided_over m (head? rest);
  }

  abbrev pub fill_with : Member → List Member → List Opened → List Opened
  fill_with m rest opened = opened ++ (filled m rest ∷ [])

  -- `minOnline` is enforced even when scale-up is disabled.
  unfoldable pub fill_min : List Member → List Opened → List Opened
  fill_min [] opened = opened
  fill_min (m ∷ rest) opened =
      let more = fill_min rest (fill_with m rest opened) in
      if wants_more opened then more else opened

  abbrev pub start : Opening
  start = record { bins = booting_bins; offline = ranked_up; opened = []; unplaced = [] }

  -- `plan.power_on`.
  unfoldable pub power_on : List Opened
  power_on = let o = place_pods (largest_first relevant) start in fill_min o.offline o.opened

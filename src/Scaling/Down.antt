-- ===== src/Scaling/Down.antt =====
-- Scaling down: the second half of `plan` (src/scaling.rs), up to its texts for people.
pub mod Limits
pub mod Guards
use Prim.Native.String.{◌++◌ as append}
use kube_hardware_autoscaler.Base.{
  ℕ, ◌+◌, ◌-◌, max, String, Bool, true, ◌&&◌, ◌||◌, not, Option, none, some, List, [], ◌∷◌, ◌++◌,
  map, str_eq, ltb, leb, any, filter, find, length, is_empty, contains, lookup, insert, is_some,
  filter_option, unwrap_or, if◌then◌else◌,
}
use kube_hardware_autoscaler.Crd.Amounts.{ResourceAmounts, minus}
use kube_hardware_autoscaler.Scaling.Members.{Member, PoolSnapshot, hosts_evicted}
use kube_hardware_autoscaler.Scaling.Order.{largest_first, deciding_rule}
use kube_hardware_autoscaler.Scaling.Up.{Decided, over, only_one, online_now, rank_in}
use kube_hardware_autoscaler.Scaling.Moves.{Free, remove_key, Target, fit_all}
use kube_hardware_autoscaler.Scaling.Idle.{
  candidates, over_max, leaving, blocked_reason, released, expired, eligible,
}

abbrev external_key : String → String
external_key name = append "external/" name

pub data OffCause : Type 0 where
  above_max released_by_hand underused : OffCause

pub record Off : Type 0 where
  pub member : String
  pub cause : OffCause
  pub rank : ℕ
  pub decided : Decided

-- Why an eligible machine stays on.
pub data Kept : Type 0 where
  by_others : List (String × String) → Kept
  step_reached min_reached no_room : Kept

pub record Removing : Type 0 where
  pub removed : List String
  pub free : Free
  pub power_off : List Off
  pub kept : List (String × Kept)

-- `BTreeSet::insert`.
abbrev add_name : String → List String → List String
add_name k names = if contains names k then names else k ∷ names

module _ (at_threshold : ResourceAmounts → ResourceAmounts → ℕ → Bool) (s : PoolSnapshot) where
  abbrev pub down_step : ℕ
  down_step = max s.spec.scale_down.max_nodes_per_step 1

  abbrev free_now : Free
  free_now =
      map (λ m. (m.name, minus m.allocatable m.requested)) (filter hosts_evicted s.members)
      ++ map (λ e. (external_key e.name, e.free)) s.external

  abbrev pub budget : ℕ
  budget =
      if ltb 0 (over_max at_threshold s)
      then max (over_max at_threshold s) (down_step - leaving at_threshold s)
      else down_step - leaving at_threshold s

  abbrev targets_of : Member → List String → List Target
  targets_of m removed =
      map (λ o. record { key = o.name; labels = o.labels; taints = o.taints })
        (filter
          (λ o. hosts_evicted o && (not (str_eq o.name m.name) && not (contains removed o.name)))
          s.members)
      ++ map (λ e. record { key = external_key e.name; labels = e.labels; taints = e.taints })
          s.external

  -- The machine's pods, moved to the machines that stay.
  abbrev pub move_pods : Member → Removing → Option Free
  move_pods m r =
      fit_all (largest_first m.movable_pods) (targets_of m r.removed) (remove_key m.name r.free)

  abbrev cause_of : Member → OffCause
  cause_of m =
      if ltb 0 (over_max at_threshold s)
      then above_max
      else if released at_threshold s m && not (expired at_threshold s m)
      then released_by_hand
      else underused

  abbrev before : Member → Option Member → Decided
  before m none = only_one
  before m (some next) = over next.name (deciding_rule s.spec m next true)

  abbrev pub off_record : Member → List Member → List String → Off
  off_record m rest removed = record {
    member = m.name;
    cause = cause_of m;
    rank = unwrap_or (rank_in s (candidates at_threshold s) m.name) 0 + 1;
    decided = before m (find (λ o. not (contains removed o.name)) rest);
  }

  abbrev pub keep : Member → Kept → Removing → Removing
  keep m why r = record r { kept = insert m.name why r.kept }

  -- The machine goes if its pods fit elsewhere.
  release : Member → List Member → Option Free → Removing → Removing
  release m rest none r = keep m no_room r
  release m rest (some trial) r =
      let removed = add_name m.name r.removed in
      record r {
        removed = removed;
        free = trial;
        power_off = r.power_off ++ (off_record m rest removed ∷ []);
      }

  abbrev pub holds_of : Member → Option (List (String × String))
  holds_of m = filter_option (lookup m.name s.kept_by_others) (λ h. not (is_empty h))

  within_limits : Member → List Member → Removing → Removing
  unfolding release
  within_limits m rest r =
      if leb budget (length r.removed)
      then keep m step_reached r
      else if leb (online_now s - length r.removed) s.spec.min_online
      then keep m min_reached r
      else release m rest (move_pods m r) r

  unless_held : Member → List Member → Option (List (String × String)) → Removing → Removing
  unfolding within_limits
  unless_held m rest (some holds) r = keep m (by_others holds) r
  unless_held m rest none r = within_limits m rest r

  -- One machine of the loop, and those after it.
  unfoldable pub remove_one : Member → List Member → Removing → Removing
  unfolding unless_held
  remove_one m rest r = unless_held m rest (holds_of m) r

  unfoldable pub remove_all : List Member → Removing → Removing
  remove_all [] r = r
  remove_all (m ∷ ms) r = remove_all ms (remove_one m ms r)

  abbrev pub nothing_removed : Removing
  nothing_removed = record { removed = []; free = free_now; power_off = []; kept = [] }

  abbrev may_remove : Bool
  may_remove =
      not (is_some (blocked_reason at_threshold s))
      && (ltb (leaving at_threshold s) down_step || ltb 0 (over_max at_threshold s))

  -- The loop over the eligible machines, if the pool may power any off.
  unfoldable pub scale_down : Removing
  scale_down =
      if may_remove then remove_all (eligible at_threshold s) nothing_removed else nothing_removed

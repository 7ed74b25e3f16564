-- ===== src/Scaling/Tests.antt =====
-- Plans for a small pool (src/scaling.rs).
use kube_hardware_autoscaler.Base.{
  Ordering, Among, contains, inl, ℕ, ◌+◌, ◌-◌, ◌≤◌, max, String, Bool, true, false, ◌≡◌, ◌≢◌, refl,
  ◌⊎◌, str_eq, eq_iff, none, List, [], ◌∷◌, arith, length, filter, All,
}
use kube_hardware_autoscaler.Base.Int.{pos}
use kube_hardware_autoscaler.Crd.Amounts.{ResourceAmounts}
use kube_hardware_autoscaler.Scaling.Fit.{PodView}
use kube_hardware_autoscaler.Scaling.Members.{MemberState, Member, PoolSnapshot, may_power_on}
use kube_hardware_autoscaler.Scaling.Up.{
  only_one, max_online, up_step, online_now, power_on, fill_min, place_pods,
}
use kube_hardware_autoscaler.Scaling.Up.Limits.{power_on_limits}
use kube_hardware_autoscaler.Scaling.Up.Choice.{occurrences, opened_names, names, power_on_chosen}
use kube_hardware_autoscaler.Scaling.Moves.{fit_all}
use kube_hardware_autoscaler.Scaling.Idle.{blocked_reason, down_note, waiting_for_registration}
use kube_hardware_autoscaler.Scaling.Down.{Off, underused, scale_down, remove_all, remove_one}
use kube_hardware_autoscaler.Scaling.Down.Guards.{Justified, scale_down-Justified}
use kube_hardware_autoscaler.Scaling.Agree.{releasable}
use kube_hardware_autoscaler.Scaling.Agree.Offered.{power_off_releasable}
use kube_hardware_autoscaler.Crd.Spec.{node_weight}
use kube_hardware_autoscaler.Scaling.Ranking.{ranking-Perm}
use mathlib.Core.List.{Permᴰ}
use kube_hardware_autoscaler.Scaling.Order.Listing.{Distinct}
use kube_hardware_autoscaler.Scaling.Up.{ranked_up}
use kube_hardware_autoscaler.Scaling.Idle.{candidates}
use kube_hardware_autoscaler.Scaling.Members.{may_power_on}
use kube_hardware_autoscaler.Base.{filter}
use kube_hardware_autoscaler.Scaling.Order.{is_gt, power_on_order}
use kube_hardware_autoscaler.Samples.{noon, pool_spec}

abbrev amounts : ℕ → ResourceAmounts
amounts cpu = record { cpu_millis = pos cpu; memory_bytes = pos 0; pods = pos 1 }

abbrev member : String → MemberState → Member
member name state = record {
  name = name;
  state = state;
  auto = true;
  labels = [];
  taints = [];
  allocatable = amounts 4000;
  requested = record { cpu_millis = pos 0; memory_bytes = pos 0; pods = pos 0 };
  counted = record { cpu_millis = pos 0; memory_bytes = pos 0; pods = pos 0 };
  movable_pods = [];
  blocking_pods = [];
  drain_failed_at = none;
  s3_capable = false;
  registering = [];
  adopted_at = none;
  release_after = none;
}

abbrev view : PodView
view = record {
  namespace = "default";
  name = "web";
  requests = amounts 1000;
  node_selector = [];
  affinity_terms = [];
  tolerations = [];
  created = none;
  extended_requests = [];
}

abbrev snapshot : List Member → List PodView → PoolSnapshot
snapshot members pending = record {
  spec = pool_spec;
  members = members;
  pending = pending;
  now = noon;
  last_scale_up = none;
  unneeded_since = ("n1", 0) ∷ [];
  external = [];
  kept_by_others = [];
}

-- A pending pod and two machines that are off.
abbrev waiting : PoolSnapshot
waiting =
    snapshot (member "n1" MemberState.offline ∷ member "n2" MemberState.offline ∷ []) (view ∷ [])

power_on_limits_example :
    (length (power_on waiting) ≤ max (up_step waiting.spec) (0 - online_now waiting))
    × ((length (power_on waiting) ≡ 0)
        ⊎ (online_now waiting + length (power_on waiting) ≤ max_online waiting.spec))
power_on_limits_example = power_on_limits waiting (omega arith)

power_on_chosen_example :
    occurrences "n1" (opened_names (power_on waiting))
    ≤ occurrences "n1" (names (filter may_power_on waiting.members))
power_on_chosen_example = power_on_chosen waiting "n1"

-- A machine that has been idle since midnight.
abbrev idle : PoolSnapshot
idle = snapshot (member "n1" MemberState.online ∷ []) []

abbrev never : ResourceAmounts → ResourceAmounts → ℕ → Bool
never a b n = false

scale_down-Justified_example : All (Justified never idle) (scale_down never idle).power_off
scale_down-Justified_example = scale_down-Justified never idle

goes : length (scale_down never idle).power_off ≡ 1
unfolding scale_down blocked_reason power_on fill_min place_pods remove_all down_note
    waiting_for_registration remove_one fit_all
goes = refl

some_goes : (scale_down never idle).power_off ≢ []
some_goes h = cc (goes, h)

abbrev gone : Off
gone = record { member = "n1"; cause = underused; rank = 1; decided = only_one }

gone_off : Among gone (scale_down never idle).power_off
unfolding scale_down blocked_reason power_on fill_min place_pods remove_all down_note
    waiting_for_registration remove_one fit_all
gone_off = inl refl

power_off_releasable_example : contains (releasable never idle) "n1" ≡ true
power_off_releasable_example = power_off_releasable never idle gone refl gone_off

same_rank :
    power_on_order pool_spec (member "n1" MemberState.offline) (member "n1" MemberState.offline)
    ≡ Ordering.eq
unfolding power_on_order node_weight
same_rank = refl

abbrev offline_1 : Member
offline_1 = member "n1" MemberState.offline

abbrev offline_2 : Member
offline_2 = member "n2" MemberState.offline

abbrev offline_3 : Member
offline_3 = member "n3" MemberState.offline

ranks_1_2 : is_gt (power_on_order pool_spec offline_1 offline_2) ≡ false
unfolding power_on_order node_weight
ranks_1_2 = refl

ranks_2_3 : is_gt (power_on_order pool_spec offline_2 offline_3) ≡ false
unfolding power_on_order node_weight
ranks_2_3 = refl

abbrev three : PoolSnapshot
three = snapshot (offline_3 ∷ (offline_1 ∷ (offline_2 ∷ []))) []

-- The same machines, listed in another order.
abbrev another_order : List Member
another_order = offline_1 ∷ offline_3 ∷ offline_2 ∷ []

other_name : (a b : String) → str_eq a b ≡ false → a ≢ b
other_name a b h = ground (arith, eq_iff a b)

three-Distinct : Distinct three.members
three-Distinct = (
  (other_name "n3" "n1" refl, (other_name "n3" "n2" refl, tt)),
  ((other_name "n1" "n2" refl, tt), (tt, tt)),
)

ranking-Perm_example :
    (ranked_up three ≡ ranked_up (record three { members = another_order }))
    × (candidates never three ≡ candidates never (record three { members = another_order }))
ranking-Perm_example = ranking-Perm never three another_order (Permᴰ.swap refl refl) three-Distinct

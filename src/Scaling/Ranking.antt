-- ===== src/Scaling/Ranking.antt =====
-- The orders in which `plan` goes through the machines (src/scaling.rs).
use mathlib.Core.List.{Permᴰ}
use kube_hardware_autoscaler.Base.{ℕ, Bool, ◌≡◌, sym, List, length, filter}
use kube_hardware_autoscaler.Crd.Amounts.{ResourceAmounts}
use kube_hardware_autoscaler.Scaling.Members.{Member, PoolSnapshot, may_power_on, may_power_off}
use kube_hardware_autoscaler.Scaling.Order.{power_on_order}
use kube_hardware_autoscaler.Scaling.Order.Sorted.{
  Ranked, count-sort_by, not_after, power_on_ranking, power_off_ranking,
}
use kube_hardware_autoscaler.Scaling.Order.Listing.{Distinct, sort_filtered-Perm, power_on_strict}
use kube_hardware_autoscaler.Scaling.Up.{ranked_up}
use kube_hardware_autoscaler.Scaling.Idle.{candidates}

-- Powering on goes through the machines by rank: no machine stands behind one that the power-on
-- order ranks after it, and the machines are those that may be powered on, each as often as it is
-- listed (for every test, as many of them pass it).
pub ranked_up-Ranked :
    (s : PoolSnapshot) (p : Member → Bool)
    → Ranked (power_on_order s.spec) (ranked_up s)
      × (length (filter p (ranked_up s)) ≡ length (filter p (filter may_power_on s.members)))
ranked_up-Ranked s p = (
  power_on_ranking s.spec (filter may_power_on s.members),
  count-sort_by (power_on_order s.spec) p (filter may_power_on s.members),
)

-- Powering off goes through the machines by the reversed rank: no machine stands behind one that
-- the power-on order ranks before it, and the machines are those that may be powered off, each as
-- often as it is listed (for every test, as many of them pass it).
pub candidates-Ranked :
    (at_threshold : ResourceAmounts → ResourceAmounts → ℕ → Bool) (s : PoolSnapshot)
    (p : Member → Bool)
    → Ranked (λ a b. power_on_order s.spec b a) (candidates at_threshold s)
      × (length (filter p (candidates at_threshold s))
          ≡ length (filter p (filter may_power_off s.members)))
candidates-Ranked at_threshold s p = (
  power_off_ranking s.spec (filter may_power_off s.members),
  count-sort_by (λ a b. power_on_order s.spec b a) p (filter may_power_off s.members),
)

-- The orders do not depend on the order in which the machines are listed (the cache lists them in
-- any order): as long as no two machines of the pool have one name, a list of the same machines gives
-- the same order, both for powering on and for powering off.
pub ranking-Perm :
    (at_threshold : ResourceAmounts → ResourceAmounts → ℕ → Bool) (s : PoolSnapshot)
    (ms : List Member)
    → Permᴰ s.members ms
    → Distinct s.members
    → (ranked_up s ≡ ranked_up (record s { members = ms }))
      × (candidates at_threshold s ≡ candidates at_threshold (record s { members = ms }))
ranking-Perm at_threshold s ms d h = (
  sort_filtered-Perm (power_on_order s.spec) (not_after s.spec) (power_on_strict s.spec)
      may_power_on d h,
  sort_filtered-Perm (λ a b. power_on_order s.spec b a) (λ a b c j k. not_after s.spec c b a k j)
      (λ a b k. power_on_strict s.spec b a (λ e. k (sym e))) may_power_off d h,
)

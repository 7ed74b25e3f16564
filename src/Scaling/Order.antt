-- ===== src/Scaling/Order.antt =====
-- The order of a pool's machines and of the pending pods (`power_on_order` and the sorts of `plan`,
-- src/scaling.rs).
pub mod Sorted
pub mod Listing
pub mod Total
pub mod Transitive
use Prim.Native.String.{compare as compare_str}
use kube_hardware_autoscaler.Base.{
  ℕ, ◌+◌, compare, Ordering, String, Bool, true, false, ◌&&◌, not, List, [], ◌∷◌, if◌then◌else◌,
}
use kube_hardware_autoscaler.Base.Int.{ℤ, pos_part, neg_part}
use kube_hardware_autoscaler.Crd.Spec.{NodeScalingPoolSpec, node_weight}
use kube_hardware_autoscaler.Crd.Amounts.{ResourceAmounts}
use kube_hardware_autoscaler.Scaling.Fit.{PodView}
use kube_hardware_autoscaler.Scaling.Members.{Member}

-- `Ordering::then`.
abbrev pub and_then : Ordering → Ordering → Ordering
and_then Ordering.eq o = o
and_then Ordering.lt o = Ordering.lt
and_then Ordering.gt o = Ordering.gt

abbrev pub cmp_ℤ : ℤ → ℤ → Ordering
cmp_ℤ a b = compare (pos_part a + neg_part b) (pos_part b + neg_part a)

-- `false < true`.
abbrev cmp_bool : Bool → Bool → Ordering
cmp_bool false true = Ordering.lt
cmp_bool true false = Ordering.gt
cmp_bool _ _ = Ordering.eq

-- CPU, then memory.
abbrev pub cmp_size : ResourceAmounts → ResourceAmounts → Ordering
cmp_size a b = and_then (cmp_ℤ a.cpu_millis b.cpu_millis) (cmp_ℤ a.memory_bytes b.memory_bytes)

-- `Reverse` compares the other way round.
unfoldable pub power_on_order : NodeScalingPoolSpec → Member → Member → Ordering
power_on_order spec a b =
    and_then (compare (node_weight spec.scale_up b.name) (node_weight spec.scale_up a.name)) (
      and_then
        (cmp_bool (spec.scale_up.prefer_s3_capable && not a.s3_capable)
          (spec.scale_up.prefer_s3_capable && not b.s3_capable))
        (and_then (cmp_size b.allocatable a.allocatable) (compare_str a.name b.name)))

abbrev pub is_gt : Ordering → Bool
is_gt Ordering.gt = true
is_gt _ = false

-- `sort_by`, which is stable: an element goes in front of the first that is not smaller.
module _ {ℓ} {A : Type ℓ} (cmp : A → A → Ordering) where
  abbrev pub insert_sorted : A → List A → List A
  insert_sorted x [] = x ∷ []
  insert_sorted x (y ∷ ys) =
      let rest = insert_sorted x ys in if is_gt (cmp x y) then y ∷ rest else x ∷ (y ∷ ys)

  abbrev pub sort_by : List A → List A
  sort_by [] = []
  sort_by (x ∷ xs) = insert_sorted x (sort_by xs)

-- `sort_by_key(|p| Reverse((cpu, memory)))`: the largest requests first.
abbrev pub largest_first : List PodView → List PodView
largest_first pods = sort_by (λ a b. cmp_size b.requests a.requests) pods

-- Which rule of the order puts one machine ahead of another.
pub data Rule : Type 0 where
  weight : (chosen other : ℕ) → Rule
  s3_capability : (down : Bool) → Rule
  size : (chosen other : ResourceAmounts) → Rule
  name : (down : Bool) (chosen other : String) → Rule

abbrev is_eq : Ordering → Bool
is_eq Ordering.eq = true
is_eq _ = false

unfoldable pub deciding_rule : NodeScalingPoolSpec → Member → Member → Bool → Rule
deciding_rule spec chosen other down =
    let wc = node_weight spec.scale_up chosen.name in
    let wo = node_weight spec.scale_up other.name in
    if not (is_eq (compare wc wo))
    then weight wc wo
    else if spec.scale_up.prefer_s3_capable
        && not (is_eq (cmp_bool chosen.s3_capable other.s3_capable))
    then s3_capability down
    else if not (is_eq (cmp_size chosen.allocatable other.allocatable))
    then size chosen.allocatable other.allocatable
    else name down chosen.name other.name

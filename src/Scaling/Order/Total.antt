-- ===== src/Scaling/Order/Total.antt =====
-- The ranking of two machines by `power_on_order` (src/scaling.rs), and its reversal.
use Prim.Native.Char.{code}
use Prim.Native.String.compare as compare_str
use Prim.Native.String.{compare as compare_str, then as then_str}
use text.Mathlib.TextEquality.{path_by_compare}
use kube_hardware_autoscaler.Base.{
  ℕ, compare, Ordering, String, Bool, true, false, ◌&&◌, not, ◌≡◌, refl, ◌∙◌, sym, ap, arith,
}
use kube_hardware_autoscaler.Crd.Amounts.{ResourceAmounts}
use kube_hardware_autoscaler.Crd.Spec.{NodeScalingPoolSpec, node_weight}
use kube_hardware_autoscaler.Scaling.Members.{Member}
use kube_hardware_autoscaler.Scaling.Order.{and_then, cmp_bool, cmp_size, power_on_order}

-- `Ordering::reverse`.
abbrev pub flip : Ordering → Ordering
flip Ordering.lt = Ordering.gt
flip Ordering.eq = Ordering.eq
flip Ordering.gt = Ordering.lt

flip-and_then : (x y : Ordering) → flip (and_then x y) ≡ and_then (flip x) (flip y)
flip-and_then Ordering.lt y = refl
flip-and_then Ordering.eq y = refl
flip-and_then Ordering.gt y = refl

flip-compare : (m n : ℕ) → compare n m ≡ flip (compare m n)
flip-compare m n = ground arith

flip-cmp_bool : (a b : Bool) → cmp_bool b a ≡ flip (cmp_bool a b)
flip-cmp_bool true true = refl
flip-cmp_bool true false = refl
flip-cmp_bool false true = refl
flip-cmp_bool false false = refl

flip-cmp_size : (a b : ResourceAmounts) → cmp_size b a ≡ flip (cmp_size a b)
flip-cmp_size a b = ground arith

flip-then_str : (x y : Ordering) → flip (then_str x y) ≡ then_str (flip x) (flip y)
flip-then_str Ordering.lt y = refl
flip-then_str Ordering.eq y = refl
flip-then_str Ordering.gt y = refl

pub flip-compare_str : (s t : String) → compare_str t s ≡ flip (compare_str s t)
flip-compare_str String.[] String.[] = compare_str.nil-nil ∙ sym (ap flip compare_str.nil-nil)
flip-compare_str String.[] (String.◌∷◌ d t) =
    compare_str.cons-nil d t ∙ sym (ap flip (compare_str.nil-cons d t))
flip-compare_str (String.◌∷◌ c s) String.[] =
    compare_str.nil-cons c s ∙ sym (ap flip (compare_str.cons-nil c s))
flip-compare_str (String.◌∷◌ c s) (String.◌∷◌ d t) =
    compare_str.cons-cons d c t s
    ∙ (λ i. then_str (flip-compare (code c) (code d) i) (flip-compare_str s t i))
    ∙ sym (ap flip (compare_str.cons-cons c d s t) ∙ flip-then_str _ _)

and_then-eq : (x y : Ordering) → and_then x y ≡ Ordering.eq → y ≡ Ordering.eq
and_then-eq Ordering.lt y h = cc
and_then-eq Ordering.eq y h = h
and_then-eq Ordering.gt y h = cc

-- The parts of the order, from the first to the last that may decide.
abbrev pub by_weight : NodeScalingPoolSpec → Member → Member → Ordering
by_weight spec a b = compare (node_weight spec.scale_up b.name) (node_weight spec.scale_up a.name)

abbrev pub by_s3 : NodeScalingPoolSpec → Member → Member → Ordering
by_s3 spec a b =
    cmp_bool (spec.scale_up.prefer_s3_capable && not a.s3_capable)
      (spec.scale_up.prefer_s3_capable && not b.s3_capable)

abbrev pub by_size : Member → Member → Ordering
by_size a b = cmp_size b.allocatable a.allocatable

-- The ranking is total: two machines rank the same only if they have the same name.
pub power_on_order-eq :
    (spec : NodeScalingPoolSpec) (a b : Member)
    → power_on_order spec a b ≡ Ordering.eq
    → a.name ≡ b.name
unfolding power_on_order
power_on_order-eq spec a b h = path_by_compare a.name b.name (
    and_then-eq (by_size a b) _
      (and_then-eq (by_s3 spec a b) _ (and_then-eq (by_weight spec a b) _ h)))

flip-and_then_of :
    (x y : Ordering) {x' y' : Ordering}
    → x' ≡ flip x
    → y' ≡ flip y
    → and_then x' y' ≡ flip (and_then x y)
flip-and_then_of x y h k = (λ i. and_then (h i) (k i)) ∙ sym (flip-and_then x y)

abbrev by_name : Member → Member → Ordering
by_name a b = compare_str a.name b.name

-- Powering off follows the exact reverse of the power-on order: ranking two machines the other way
-- round reverses the outcome.
pub flip-power_on_order :
    (spec : NodeScalingPoolSpec) (a b : Member)
    → power_on_order spec b a ≡ flip (power_on_order spec a b)
unfolding power_on_order
flip-power_on_order spec a b =
    let size =
      flip-and_then_of (by_size a b) (by_name a b) (flip-cmp_size b.allocatable a.allocatable)
        (flip-compare_str a.name b.name) in
    let s3 =
      flip-and_then_of (by_s3 spec a b) (and_then (by_size a b) (by_name a b))
        (flip-cmp_bool (spec.scale_up.prefer_s3_capable && not a.s3_capable)
          (spec.scale_up.prefer_s3_capable && not b.s3_capable))
        size in
    flip-and_then_of (by_weight spec a b)
      (and_then (by_s3 spec a b) (and_then (by_size a b) (by_name a b)))
      (flip-compare (node_weight spec.scale_up b.name) (node_weight spec.scale_up a.name)) s3

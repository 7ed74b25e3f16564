-- ===== src/Scaling/Order/Transitive.antt =====
-- The ranking of three machines by `power_on_order` (src/scaling.rs).
use Prim.Native.Char.{code, Char}
use Prim.Native.String.compare as compare_str
use Prim.Native.String.{compare as compare_str, then as then_str}
use kube_hardware_autoscaler.Base.{
  ℕ, compare, Ordering, String, Bool, true, false, ◌&&◌, not, ◌≡◌, refl, ◌∙◌, sym, ap, arith,
}
use kube_hardware_autoscaler.Crd.Amounts.{ResourceAmounts}
use kube_hardware_autoscaler.Crd.Spec.{NodeScalingPoolSpec, node_weight}
use kube_hardware_autoscaler.Scaling.Members.{Member}
use kube_hardware_autoscaler.Scaling.Order.{and_then, cmp_bool, cmp_size, power_on_order, is_gt}
use kube_hardware_autoscaler.Scaling.Order.Total.{by_weight, by_s3, by_size}

-- The outcomes x of (a, b) and y of (b, c) chain to the outcome z of (a, c).
abbrev Chains : Ordering → Ordering → Ordering → Type 0
Chains x y z = is_gt x ≡ false → is_gt y ≡ false → z ≡ and_then x y

compare-Chains : (k m n : ℕ) → Chains (compare k m) (compare m n) (compare k n)
compare-Chains k m n h h' = ground arith

-- Larger first: the comparison the other way round.
down-Chains : (k m n : ℕ) → Chains (compare m k) (compare n m) (compare n k)
down-Chains k m n h h' = ground arith

cmp_bool-Chains : (a b c : Bool) → Chains (cmp_bool a b) (cmp_bool b c) (cmp_bool a c)
cmp_bool-Chains true true true h h' = refl
cmp_bool-Chains true true false h h' = cc
cmp_bool-Chains true false c h h' = cc
cmp_bool-Chains false true true h h' = refl
cmp_bool-Chains false true false h h' = cc
cmp_bool-Chains false false true h h' = refl
cmp_bool-Chains false false false h h' = refl

size_down-Chains : (a b c : ResourceAmounts) → Chains (cmp_size b a) (cmp_size c b) (cmp_size c a)
size_down-Chains a b c h h' = ground arith

-- Two comparisons that chain, the second deciding ties of the first, chain.
and_then-Chains :
    (x y z x' y' z' : Ordering)
    → Chains x y z
    → Chains x' y' z'
    → Chains (and_then x x') (and_then y y') (and_then z z')
and_then-Chains Ordering.gt y z x' y' z' f g h h' = cc
and_then-Chains Ordering.lt Ordering.gt z x' y' z' f g h h' = cc
and_then-Chains Ordering.lt Ordering.lt z x' y' z' f g h h' = ap (λ o. and_then o z') (f refl refl)
and_then-Chains Ordering.lt Ordering.eq z x' y' z' f g h h' = ap (λ o. and_then o z') (f refl refl)
and_then-Chains Ordering.eq Ordering.gt z x' y' z' f g h h' = cc
and_then-Chains Ordering.eq Ordering.lt z Ordering.gt y' z' f g h h' = cc
and_then-Chains Ordering.eq Ordering.lt z Ordering.lt y' z' f g h h' =
    ap (λ o. and_then o z') (f refl refl)
and_then-Chains Ordering.eq Ordering.lt z Ordering.eq y' z' f g h h' =
    ap (λ o. and_then o z') (f refl refl)
and_then-Chains Ordering.eq Ordering.eq z x' y' z' f g h h' =
    ap (λ o. and_then o z') (f refl refl) ∙ g h h'

then_str-and_then : (x y : Ordering) → then_str x y ≡ and_then x y
then_str-and_then Ordering.lt y = refl
then_str-and_then Ordering.eq y = refl
then_str-and_then Ordering.gt y = refl

compare_cons :
    (c d : Char) (s t : String)
    → compare_str (String.◌∷◌ c s) (String.◌∷◌ d t)
      ≡ and_then (compare (code c) (code d)) (compare_str s t)
compare_cons c d s t =
    compare_str.cons-cons c d s t ∙ then_str-and_then (compare (code c) (code d)) (compare_str s t)

Chains-eq : {x y z x' y' z' : Ordering} → x ≡ x' → y ≡ y' → z ≡ z' → Chains x' y' z' → Chains x y z
Chains-eq p q r f h h' =
    r ∙ f (sym (ap is_gt p) ∙ h) (sym (ap is_gt q) ∙ h') ∙ (λ i. and_then (sym p i) (sym q i))

compare_str-Chains : (s t u : String) → Chains (compare_str s t) (compare_str t u) (compare_str s u)
compare_str-Chains String.[] String.[] u h h' =
    sym (ap (λ o. and_then o (compare_str String.[] u)) compare_str.nil-nil)
compare_str-Chains String.[] (String.◌∷◌ d t) String.[] h h' = cc (compare_str.cons-nil d t)
compare_str-Chains String.[] (String.◌∷◌ d t) (String.◌∷◌ e u) h h' =
    compare_str.nil-cons e u
    ∙ sym (
        ap (λ o. and_then o (compare_str (String.◌∷◌ d t) (String.◌∷◌ e u)))
          (compare_str.nil-cons d t))
compare_str-Chains (String.◌∷◌ c s) String.[] u h h' = cc (compare_str.cons-nil c s)
compare_str-Chains (String.◌∷◌ c s) (String.◌∷◌ d t) String.[] h h' = cc (compare_str.cons-nil d t)
compare_str-Chains (String.◌∷◌ c s) (String.◌∷◌ d t) (String.◌∷◌ e u) h h' =
    Chains-eq (compare_cons c d s t) (compare_cons d e t u) (compare_cons c e s u)
      (and_then-Chains (compare (code c) (code d)) (compare (code d) (code e))
        (compare (code c) (code e)) (compare_str s t) (compare_str t u) (compare_str s u)
        (compare-Chains (code c) (code d) (code e)) (compare_str-Chains s t u))
      h h'

-- The power-on ranking is transitive: where a machine does not rank after a second and the second
-- does not rank after a third, the first does not rank after the third, and it ranks strictly
-- before the third as soon as one of the two steps is strict.
pub power_on_order_trans :
    (spec : NodeScalingPoolSpec) (a b c : Member)
    → is_gt (power_on_order spec a b) ≡ false
    → is_gt (power_on_order spec b c) ≡ false
    → power_on_order spec a c ≡ and_then (power_on_order spec a b) (power_on_order spec b c)
unfolding power_on_order
power_on_order_trans spec a b c =
    let weight = λ (m : Member). node_weight spec.scale_up m.name in
    let no_s3 = λ (m : Member). spec.scale_up.prefer_s3_capable && not m.s3_capable in
    and_then-Chains (by_weight spec a b) (by_weight spec b c) (by_weight spec a c) _ _ _
      (down-Chains (weight a) (weight b) (weight c))
      (and_then-Chains (by_s3 spec a b) (by_s3 spec b c) (by_s3 spec a c) _ _ _
        (cmp_bool-Chains (no_s3 a) (no_s3 b) (no_s3 c))
        (and_then-Chains (by_size a b) (by_size b c) (by_size a c) _ _ _
          (size_down-Chains a.allocatable b.allocatable c.allocatable)
          (compare_str-Chains a.name b.name c.name)))

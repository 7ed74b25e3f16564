-- ===== src/Scaling/Order/Sorted.antt =====
-- The sorts of `plan` (src/scaling.rs) and the ranking of the machines.
use kube_hardware_autoscaler.Base.{
  Bool, true, false, ◌≡◌, refl, ◌∙◌, ap, List, [], ◌∷◌, Ordering, length, filter, All, All-mono,
  arith, if◌then◌else◌,
}
use kube_hardware_autoscaler.Crd.Spec.{NodeScalingPoolSpec}
use kube_hardware_autoscaler.Scaling.Members.{Member}
use kube_hardware_autoscaler.Scaling.Order.{and_then, is_gt, insert_sorted, sort_by, power_on_order}
use kube_hardware_autoscaler.Scaling.Order.Total.{flip, flip-power_on_order}
use kube_hardware_autoscaler.Scaling.Order.Transitive.{power_on_order_trans}

-- No element ranks after a later one.
abbrev pub Ranked : {A : Type 0} → (A → A → Ordering) → List A → Type 0
Ranked cmp [] = Unit
Ranked cmp (x ∷ xs) = All (λ y. is_gt (cmp x y) ≡ false) xs × Ranked cmp xs

-- What holds of both branches, each under its test, holds of the whole.
if_elim :
    {A : Type 0} (Q : A → Type 0) (b : Bool) {x y : A}
    → (b ≡ true → Q x)
    → (b ≡ false → Q y)
    → Q (if b then x else y)
if_elim Q true f g = f refl
if_elim Q false f g = g refl

module _ {A : Type 0} (cmp : A → A → Ordering) where
  All-insert_sorted :
      (P : A → Type 0) (x : A) (ys : List A) → P x → All P ys → All P (insert_sorted cmp x ys)
  All-insert_sorted P x [] hx h = (hx, tt)
  All-insert_sorted P x (y ∷ ys) hx h =
      let rest = All-insert_sorted P x ys hx h.1 in
      if_elim (All P) (is_gt (cmp x y)) (λ e. (h.0, rest)) (λ e. (hx, h))

  count-insert_sorted :
      (p : A → Bool) (x : A) (ys : List A)
      → length (filter p (insert_sorted cmp x ys)) ≡ length (filter p (x ∷ ys))
  count-insert_sorted p x [] = refl
  count-insert_sorted p x (y ∷ ys) = ground (arith, count-insert_sorted p x ys)

  pub count-sort_by :
      (p : A → Bool) (xs : List A) → length (filter p (sort_by cmp xs)) ≡ length (filter p xs)
  count-sort_by p [] = refl
  count-sort_by p (x ∷ xs) =
      count-insert_sorted p x (sort_by cmp xs) ∙ ground (arith, count-sort_by p xs)

-- A ranking that can be reversed and is transitive.
is_gt-flip : (o : Ordering) → is_gt o ≡ true → is_gt (flip o) ≡ false
is_gt-flip Ordering.lt h = cc
is_gt-flip Ordering.eq h = refl
is_gt-flip Ordering.gt h = refl

module _ {A : Type 0} (cmp : A → A → Ordering) (turn : (x y : A) → cmp y x ≡ flip (cmp x y))
    (chain : (x y z : A)
      → is_gt (cmp x y) ≡ false
      → is_gt (cmp y z) ≡ false
      → is_gt (cmp x z) ≡ false) where
  insert_sorted-Ranked : (x : A) (ys : List A) → Ranked cmp ys → Ranked cmp (insert_sorted cmp x ys)
  insert_sorted-Ranked x [] h = (tt, tt)
  insert_sorted-Ranked x (y ∷ ys) h =
      let rest = insert_sorted-Ranked x ys h.1 in
      if_elim (Ranked cmp) (is_gt (cmp x y))
        (λ e. (
          All-insert_sorted cmp (λ z. is_gt (cmp y z) ≡ false) x ys
              (ap is_gt (turn x y) ∙ is_gt-flip (cmp x y) e) h.0,
          rest,
        ))
        (λ e. ((e, All-mono _ _ (λ z k. chain x y z e k) ys h.0), h))

  sort_by-Ranked : (xs : List A) → Ranked cmp (sort_by cmp xs)
  sort_by-Ranked [] = tt
  sort_by-Ranked (x ∷ xs) = insert_sorted-Ranked x (sort_by cmp xs) (sort_by-Ranked xs)

is_gt-and_then : (x y : Ordering) → is_gt x ≡ false → is_gt y ≡ false → is_gt (and_then x y) ≡ false
is_gt-and_then Ordering.lt y h k = refl
is_gt-and_then Ordering.eq y h k = k
is_gt-and_then Ordering.gt y h k = h

module _ (spec : NodeScalingPoolSpec) where
  pub not_after :
      (a b c : Member)
      → is_gt (power_on_order spec a b) ≡ false
      → is_gt (power_on_order spec b c) ≡ false
      → is_gt (power_on_order spec a c) ≡ false
  not_after a b c h k =
      ap is_gt (power_on_order_trans spec a b c h k)
      ∙ is_gt-and_then (power_on_order spec a b) (power_on_order spec b c) h k

  pub power_on_ranking :
      (ms : List Member) → Ranked (power_on_order spec) (sort_by (power_on_order spec) ms)
  power_on_ranking ms = sort_by-Ranked (power_on_order spec) (flip-power_on_order spec) not_after ms

  pub power_off_ranking :
      (ms : List Member)
      → Ranked (λ a b. power_on_order spec b a) (sort_by (λ a b. power_on_order spec b a) ms)
  power_off_ranking ms =
      sort_by-Ranked (λ a b. power_on_order spec b a) (λ a b. flip-power_on_order spec b a)
        (λ a b c h k. not_after c b a k h) ms

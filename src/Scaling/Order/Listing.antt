-- ===== src/Scaling/Order/Listing.antt =====
-- The sorts of `plan` (src/scaling.rs) and the order in which the machines are listed.
use mathlib.Core.List.{Permᴰ}
use mathlib.Core.List.Permᴰ
use kube_hardware_autoscaler.Base.{
  Bool, true, false, not, ◌≡◌, ◌≢◌, refl, sym, ◌∙◌, ap, subst, inl, inr, Bool-cases, List, [], ◌∷◌,
  Ordering, filter, All, arith, if◌then◌else◌,
}
use kube_hardware_autoscaler.Crd.Spec.{NodeScalingPoolSpec}
use kube_hardware_autoscaler.Scaling.Members.{Member}
use kube_hardware_autoscaler.Scaling.Order.{is_gt, insert_sorted, sort_by, power_on_order}
use kube_hardware_autoscaler.Scaling.Order.Total.{flip, flip-power_on_order, power_on_order-eq}

-- No two machines of the list have one name.
abbrev pub Distinct : List Member → Type 0
Distinct [] = Unit
Distinct (m ∷ ms) = All (λ n. m.name ≢ n.name) ms × Distinct ms

All-Perm : {l k : List Member} (P : Member → Type 0) → Permᴰ l k → All P l → All P k
All-Perm P Permᴰ.nil h = h
All-Perm P (Permᴰ.cons e d) h = (subst P e h.0, All-Perm P d h.1)
All-Perm P (Permᴰ.swap e f) h = (subst P f h.1.0, (subst P e h.0, h.1.1))
All-Perm P (Permᴰ.trans d d') h = All-Perm P d' (All-Perm P d h)

Distinct-Perm : {l k : List Member} → Permᴰ l k → Distinct l → Distinct k
Distinct-Perm Permᴰ.nil h = h
Distinct-Perm (Permᴰ.cons {b = b} {l₂ = k} e d) h =
    (subst (λ (a : Member). All (λ n. a.name ≢ n.name) k) e (All-Perm _ d h.0), Distinct-Perm d h.1)
Distinct-Perm (Permᴰ.swap {b = b} {b' = b'} {l = l} e f) h =
    subst (λ (x : Member). Distinct (x ∷ b' ∷ l)) f
      (subst (λ (y : Member). Distinct (b ∷ y ∷ l)) e
        (((λ k. h.0.0 (sym k)), h.1.0), (h.0.1, h.1.1)))
Distinct-Perm (Permᴰ.trans d d') h = Distinct-Perm d' (Distinct-Perm d h)

keep-Perm :
    {l k : List Member} (b : Bool) (a : Member)
    → Permᴰ l k
    → Permᴰ (if b then a ∷ l else l) (if b then a ∷ k else k)
keep-Perm true a d = Permᴰ.cons refl d
keep-Perm false a d = d

keep_both-Perm :
    (c d : Bool) (a b : Member) (l : List Member)
    → Permᴰ
        (if c then a ∷ (if d then b ∷ l else l) else if d then b ∷ l else l)
        (if d then b ∷ (if c then a ∷ l else l) else if c then a ∷ l else l)
keep_both-Perm true true a b l = Permᴰ.swap refl refl
keep_both-Perm true false a b l = Permᴰ.refl (a ∷ l)
keep_both-Perm false true a b l = Permᴰ.refl (b ∷ l)
keep_both-Perm false false a b l = Permᴰ.refl l

filter-Perm : {l k : List Member} (p : Member → Bool) → Permᴰ l k → Permᴰ (filter p l) (filter p k)
filter-Perm p Permᴰ.nil = Permᴰ.nil
filter-Perm p (Permᴰ.cons {a = a} {l₁ = l} {l₂ = k} e d) =
    subst (λ (b : Member). Permᴰ (filter p (a ∷ l)) (filter p (b ∷ k))) e
      (keep-Perm (p a) a (filter-Perm p d))
filter-Perm p (Permᴰ.swap {a = a} {b = b} {b' = b'} {l = l} e f) =
    subst (λ (x : Member). Permᴰ (filter p (a ∷ b ∷ l)) (filter p (x ∷ b' ∷ l))) f
      (subst (λ (y : Member). Permᴰ (filter p (a ∷ b ∷ l)) (filter p (b ∷ y ∷ l))) e
        (keep_both-Perm (p a) (p b) a b (filter p l)))
filter-Perm p (Permᴰ.trans d d') = Permᴰ.trans (filter-Perm p d) (filter-Perm p d')

All-filtered :
    (P : Member → Type 0) (p : Member → Bool) (l : List Member) → All P l → All P (filter p l)
All-filtered P p [] h = tt
All-filtered P p (m ∷ ms) h = elim (Bool-cases (p m)) [
  | inl e ↦ rw e (h.0, All-filtered P p ms h.1)
  | inr e ↦ rw e (All-filtered P p ms h.1)
]

Distinct-filter : (p : Member → Bool) (l : List Member) → Distinct l → Distinct (filter p l)
Distinct-filter p [] h = tt
Distinct-filter p (m ∷ ms) h = elim (Bool-cases (p m)) [
  | inl e ↦ rw e (All-filtered _ p ms h.0, Distinct-filter p ms h.1)
  | inr e ↦ rw e (Distinct-filter p ms h.1)
]

-- A ranking that is transitive, and strict between machines of different names.
module _ (cmp : Member → Member → Ordering)
    (chain : (x y z : Member)
      → is_gt (cmp x y) ≡ false
      → is_gt (cmp y z) ≡ false
      → is_gt (cmp x z) ≡ false)
    (strict : (x y : Member) → x.name ≢ y.name → is_gt (cmp x y) ≡ not (is_gt (cmp y x))) where
  insert_twice :
      (x y : Member) (zs : List Member)
      → is_gt (cmp x y) ≡ not (is_gt (cmp y x))
      → insert_sorted cmp x (insert_sorted cmp y zs) ≡ insert_sorted cmp y (insert_sorted cmp x zs)
  insert_twice x y [] h = ground (arith, h)
  insert_twice x y (z ∷ zs) h = ground (arith, h, chain x y z, chain y x z, insert_twice x y zs h)

  sort_by-Perm : {l k : List Member} → Permᴰ l k → Distinct l → sort_by cmp l ≡ sort_by cmp k
  sort_by-Perm Permᴰ.nil h = refl
  sort_by-Perm (Permᴰ.cons {a = a} {b = b} {l₁ = l} e d) h =
      ap (λ x. insert_sorted cmp x (sort_by cmp l)) e
      ∙ ap (insert_sorted cmp b) (sort_by-Perm d h.1)
  sort_by-Perm (Permᴰ.swap {a = a} {b = b} {a' = a'} {l = l} e f) h =
      insert_twice a b (sort_by cmp l) (strict a b h.0.0)
      ∙ ap (λ x. insert_sorted cmp x (insert_sorted cmp a (sort_by cmp l))) f
      ∙ ap (λ y. insert_sorted cmp a' (insert_sorted cmp y (sort_by cmp l))) e
  sort_by-Perm (Permᴰ.trans d d') h = sort_by-Perm d h ∙ sort_by-Perm d' (Distinct-Perm d h)

  pub sort_filtered-Perm :
      {l k : List Member} (p : Member → Bool)
      → Permᴰ l k
      → Distinct l
      → sort_by cmp (filter p l) ≡ sort_by cmp (filter p k)
  sort_filtered-Perm {l} p d h = sort_by-Perm (filter-Perm p d) (Distinct-filter p l h)

strict_of : (o : Ordering) → o ≢ Ordering.eq → is_gt o ≡ not (is_gt (flip o))
strict_of Ordering.lt h = refl
strict_of Ordering.eq h = absurd (h refl)
strict_of Ordering.gt h = refl

pub power_on_strict :
    (spec : NodeScalingPoolSpec) (a b : Member)
    → a.name ≢ b.name
    → is_gt (power_on_order spec a b) ≡ not (is_gt (power_on_order spec b a))
power_on_strict spec a b h =
    strict_of (power_on_order spec a b) (λ e. h (power_on_order-eq spec a b e))
    ∙ ap (λ o. not (is_gt o)) (sym (flip-power_on_order spec a b))

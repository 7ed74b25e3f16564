-- ===== src/Membership/Resolve.antt =====
-- Which pools a machine belongs to (`resolve`, src/membership.rs).
use Prim.Native.String.{compare as compare_str}
use kube_hardware_autoscaler.Base.{
  String, true, false, ◌≢◌, inl, inr, sym, subst, Ordering, Bool-cases, not, ◌&&◌, ◌||◌, ◌≡◌, refl,
  ap, ◌∙◌, some, List, [], ◌∷◌, map, filter, arith, str_eq, any, contains,
}
use kube_hardware_autoscaler.Scaling.Order.Total.{flip-compare_str}
use kube_hardware_autoscaler.Crd.Selector.{Labels, matches}
use kube_hardware_autoscaler.Membership.{
  Pool, pools_of, insert_name, leb_str, sort_names, selects, member_or_not, resolve,
}

contains-insert_name :
    (k a : String) (names : List String)
    → contains (insert_name a names) k ≡ (str_eq a k || contains names k)
contains-insert_name k a [] = refl
contains-insert_name k a (b ∷ bs) = ground (arith, contains-insert_name k a bs)

pub contains-sort_names :
    (k : String) (names : List String) → contains (sort_names names) k ≡ contains names k
contains-sort_names k [] = refl
contains-sort_names k (a ∷ rest) =
    ground (arith, contains-insert_name k a (sort_names rest), contains-sort_names k rest)

-- No name stands before one that is smaller.
abbrev pub InOrder : List String → Type 0
InOrder [] = Unit
InOrder (x ∷ []) = Unit
InOrder (x ∷ (y ∷ rest)) = (compare_str x y ≢ Ordering.gt) × InOrder (y ∷ rest)

leb_str-true : (a b : String) → leb_str a b ≡ true → compare_str a b ≢ Ordering.gt
leb_str-true a b h e = let k : false ≡ true = rw (e, leb_str) at h in cc

leb_str-false : (a b : String) → leb_str a b ≡ false → compare_str b a ≢ Ordering.gt
leb_str-false a b h e = ground (arith, flip-compare_str a b)

InOrder-tail : (b : String) (bs : List String) → InOrder (b ∷ bs) → InOrder bs
InOrder-tail b [] h = tt
InOrder-tail b (c ∷ cs) h = h.1

-- What stands behind a name may be put behind it.
behind-InOrder :
    (a b : String) (bs : List String)
    → compare_str b a ≢ Ordering.gt
    → InOrder (b ∷ bs)
    → InOrder (insert_name a bs)
    → InOrder (b ∷ insert_name a bs)
behind-InOrder a b [] le h later = (le, tt)
behind-InOrder a b (c ∷ cs) le h later = elim (Bool-cases (leb_str a c)) [
  | inl e ↦ let k : InOrder (a ∷ (c ∷ cs)) = rw e at later in rw e (le, k)
  | inr e ↦ let k : InOrder (c ∷ insert_name a cs) = rw e at later in rw e (h.0, k)
]

insert_name-InOrder :
    (a : String) (names : List String) → InOrder names → InOrder (insert_name a names)
insert_name-InOrder a [] h = tt
insert_name-InOrder a (b ∷ bs) h =
    let later = insert_name-InOrder a bs (InOrder-tail b bs h) in
    elim (Bool-cases (leb_str a b)) [
      | inl e ↦ rw e (leb_str-true a b e, h)
      | inr e ↦ rw e (behind-InOrder a b bs (leb_str-false a b e) h later)
    ]

sort_names-InOrder : (names : List String) → InOrder (sort_names names)
sort_names-InOrder [] = tt
sort_names-InOrder (a ∷ rest) = insert_name-InOrder a (sort_names rest) (sort_names-InOrder rest)

contains-selected :
    (k : String) (labels : Labels) (pools : List Pool)
    → contains (map (λ p. p.name) (filter (selects labels) pools)) k
      ≡ any (λ p. not p.deleted && (matches p.spec.node_selector labels && str_eq p.name k)) pools
contains-selected k labels [] = refl
contains-selected k labels (p ∷ ps) = ground (arith, contains-selected k labels ps)

pools_of-member_or_not : (names : List String) → pools_of (member_or_not names) ≡ names
unfolding member_or_not
pools_of-member_or_not [] = refl
pools_of-member_or_not (n ∷ ns) = refl

-- The pools of a machine whose Node exists are listed in the order of their names, and are exactly the
-- pools of the list that are not being deleted and whose selector matches the Node's labels.
pub contains-resolve :
    (k : String) (labels : Labels) (pools : List Pool)
    → InOrder (pools_of (resolve (some labels) pools))
      × (contains (pools_of (resolve (some labels) pools)) k
          ≡ any
              (λ p. not p.deleted && (matches p.spec.node_selector labels && str_eq p.name k))
              pools)
unfolding resolve
contains-resolve k labels pools =
    let names = map (λ p. p.name) (filter (selects labels) pools) in
    let same = pools_of-member_or_not (sort_names names) in
    (
      subst InOrder (sym same) (sort_names-InOrder names),
      ap (λ l. contains l k) same
          ∙ (contains-sort_names k names ∙ contains-selected k labels pools),
    )

-- ===== src/Membership.antt =====
-- Pool membership (src/membership.rs): which pools select a machine's Node by its labels.
pub mod Resolve
pub mod Tests
use Prim.Native.String.{compare as compare_str}
use kube_hardware_autoscaler.Base.{
  String, Bool, true, false, ◌&&◌, not, Option, none, some, List, [], ◌∷◌, map, filter, Ordering,
  if◌then◌else◌,
}
use kube_hardware_autoscaler.Base.Time.{Time}
use kube_hardware_autoscaler.Crd.Selector.{Labels, NodeSelector, matches}
use kube_hardware_autoscaler.Crd.Spec.{NodeScalingPoolSpec}

-- What both controllers read of another pool: `NodeScalingPool`, with `status.releasable` and
-- `status.needed`.
pub record Pool : Type 0 where
  pub name : String
  pub deleted : Bool
  pub spec : NodeScalingPoolSpec
  pub releasable : List String
  pub needed : Labels

pub data Membership : Type 0 where
  no_node : Membership
  not_in_pool : Membership
  member : List String → Membership

-- `Membership::pools`.
abbrev pub pools_of : Membership → List String
pools_of (member p) = p
pools_of _ = []

abbrev pub leb_str : String → String → Bool
leb_str a b = elim (compare_str a b) [ Ordering.gt ↦ false | _ ↦ true ]

abbrev pub insert_name : String → List String → List String
insert_name a [] = a ∷ []
insert_name a (b ∷ bs) = if leb_str a b then a ∷ (b ∷ bs) else b ∷ insert_name a bs

-- `Vec::sort` on names.
abbrev pub sort_names : List String → List String
sort_names [] = []
sort_names (a ∷ rest) = insert_name a (sort_names rest)

abbrev pub selects : Labels → Pool → Bool
selects labels p = not p.deleted && matches p.spec.node_selector labels

member_or_not : List String → Membership
member_or_not [] = not_in_pool
member_or_not (p ∷ ps) = member (p ∷ ps)

unfoldable pub resolve : Option Labels → List Pool → Membership
unfolding member_or_not
resolve none pools = no_node
resolve (some labels) pools =
    member_or_not (sort_names (map (λ p. p.name) (filter (selects labels) pools)))

-- ===== src/Cluster.antt =====
-- The parts of Kubernetes objects that the operator reads (types of the k8s-openapi crate), with
-- what src/controller/mod.rs reads of a Node. Where the source treats an absent map or list like an
-- empty one, the field is a plain list. The amounts are `node_allocatable` and `node_extended` of
-- the Node (src/resources.rs), whose quantities are parsed as floating point numbers.
use kube_hardware_autoscaler.Base.{
  ℕ, String, Bool, false, Option, none, some, List, [], ◌∷◌, str_eq, if◌then◌else◌, find, lookup,
  is_some, is_some_and, unwrap_or,
}
use kube_hardware_autoscaler.Base.Int.{ℤ}
use kube_hardware_autoscaler.Crd.Amounts.{ResourceAmounts}
use kube_hardware_autoscaler.Crd.Selector.{Labels}

pub record Taint : Type 0 where
  pub key : String
  pub value : Option String
  pub effect : String

pub record Node : Type 0 where
  pub name : String
  pub labels : Labels
  pub annotations : Labels
  pub unschedulable : Option Bool
  pub taints : List Taint
  pub conditions : List (String × String)
  pub allocatable : ResourceAmounts
  pub extended : List (String × ℤ)
  pub boot_id : Option String
  pub system_uuid : Option (List ℕ)

pub record Toleration : Type 0 where
  pub key : Option String
  pub operator : Option String
  pub value : Option String
  pub effect : Option String

pub record Pod : Type 0 where
  pub namespace : String
  pub name : String
  pub labels : Labels
  pub annotations : Labels
  pub owner_kinds : List String
  pub phase : Option String
  pub deleted : Bool

-- `node_ready`: the first condition of type `Ready` has status `True`.
unfoldable pub node_ready : Node → Bool
node_ready n = is_some_and (find (λ c. str_eq c.0 "Ready") n.conditions) (λ c. str_eq c.1 "True")

unfoldable pub is_cordoned : Node → Bool
is_cordoned n = unwrap_or n.unschedulable false

abbrev pub cordoned_by_annotation : String
cordoned_by_annotation = "hardware-autoscaler.safewords.com/cordoned-by-operator"

abbrev pub powered_off_annotation : String
powered_off_annotation = "hardware-autoscaler.safewords.com/powered-off"

abbrev pub has_annotation : Node → String → Bool
has_annotation n key = is_some (lookup key n.annotations)

-- The labels of the Node with that name.
abbrev pub labels_in : List Node → String → Option Labels
labels_in [] n = none
labels_in (x ∷ xs) n = if str_eq x.name n then some x.labels else labels_in xs n

-- ===== src/Pool/Nodes.antt =====
-- What a cycle reads of the Nodes: those that are not its machines, with their free amounts
-- (`external_nodes`), and the preferred ones (`check_preferred_nodes`, src/controller/
-- node_scaling_pool.rs).
use kube_hardware_autoscaler.Base.{
  String, Bool, false, ◌&&◌, not, none, some, List, [], ◌∷◌, map, filter, str_eq, if◌then◌else◌,
  is_empty, contains,
}
use kube_hardware_autoscaler.Base.Time.{Time}
use kube_hardware_autoscaler.Crd.Amounts.{ResourceAmounts, no_amounts, add, minus}
use kube_hardware_autoscaler.Crd.Conditions.{set_condition}
use kube_hardware_autoscaler.Crd.Enums.{is_auto}
use kube_hardware_autoscaler.Crd.Spec.{NodeScalingPoolSpec}
use kube_hardware_autoscaler.Crd.Status.{Condition}
use kube_hardware_autoscaler.Cluster.{Node, Pod, node_ready, is_cordoned, labels_in}
use kube_hardware_autoscaler.Controller.Memory.{Warned, first_time}
use kube_hardware_autoscaler.Pool.Agreement.{preferred_node_problems}
use kube_hardware_autoscaler.Pool.Reconcile.{Config}
use kube_hardware_autoscaler.Scaling.Fit.{PodView}
use kube_hardware_autoscaler.Scaling.Members.{ExternalNode}
use kube_hardware_autoscaler.Scaling.Pods.{is_active}

-- `used.add(..)` for each active pod on the node.
abbrev used_by : List (Pod × PodView) → ResourceAmounts
used_by [] = no_amounts
used_by ((pod, view) ∷ rest) =
    let used = used_by rest in if is_active pod then add used view.requests else used

abbrev as_external : (String → List (Pod × PodView)) → Node → ExternalNode
as_external pods_on n = record {
  name = n.name;
  labels = n.labels;
  taints = n.taints;
  free = minus n.allocatable (used_by (pods_on n.name));
}

abbrev auto_managed : List Config → List String
auto_managed configs =
    map (λ c. c.spec.node_name) (filter (λ c. is_auto c.spec.power_policy) configs)

unfoldable pub external_nodes :
    List Config → List Node → (String → List (Pod × PodView)) → List ExternalNode
external_nodes configs nodes pods_on = map (as_external pods_on) (
    filter
      (λ n. not (contains (auto_managed configs) n.name) && (node_ready n && not (is_cordoned n)))
      nodes)

-- `Vec::retain` on the conditions.
abbrev drop_condition : String → List Condition → List Condition
drop_condition kind cs = filter (λ c. not (str_eq c.kind kind)) cs

-- What the check of the preferred nodes leaves: the conditions, the warnings remembered, and whether
-- one is logged now.
pub record Checked : Type 0 where
  pub conditions : List Condition
  pub warned : Warned
  pub logged : Bool

abbrev preferred_nodes_valid : String
preferred_nodes_valid = "PreferredNodesValid"

abbrev all_selected : NodeScalingPoolSpec → Time → List Condition → List Condition
all_selected spec now cs =
    if is_empty spec.scale_up.preferred_nodes
    then drop_condition preferred_nodes_valid cs
    else set_condition cs preferred_nodes_valid "True" "AllSelected" now

abbrev warn_once : String → String → Warned → List Condition → Checked
warn_once key message warned cs =
    let r = first_time key (some message) warned in
    record { conditions = cs; warned = r.1; logged = r.0 }

abbrev reason_of : List String → String
reason_of missing = if is_empty missing then "NotInPool" else "UnknownNodes"

-- `message` is formed from the two lists.
unfoldable pub check_preferred_nodes :
    (List String × List String → String)
    → String
    → NodeScalingPoolSpec
    → List Node
    → Time
    → Warned
    → List Condition
    → Checked
check_preferred_nodes message key spec nodes now warned cs =
    let problems = preferred_node_problems spec (labels_in nodes) spec.scale_up.preferred_nodes in
    if is_empty problems.0 && is_empty problems.1
    then record {
      conditions = all_selected spec now cs;
      warned = (first_time key none warned).1;
      logged = false;
    }
    else warn_once key (message problems) warned
        (set_condition cs preferred_nodes_valid "False" (reason_of problems.0) now)

-- ===== src/Scaling/Moves.antt =====
-- Where the pods of a removed machine go (`fit_all` of `plan`, src/scaling.rs).
use kube_hardware_autoscaler.Base.{
  String, ◌&&◌, Option, none, some, List, [], ◌∷◌, str_eq, find, lookup, insert, is_some_and,
  if◌then◌else◌,
}
use kube_hardware_autoscaler.Crd.Amounts.{ResourceAmounts, minus, fits}
use kube_hardware_autoscaler.Crd.Selector.{Labels}
use kube_hardware_autoscaler.Cluster.{Taint}
use kube_hardware_autoscaler.Scaling.Fit.{PodView, pod_matches_node}

abbrev pub Free : Type 0
Free = List (String × ResourceAmounts)

abbrev pub remove_key : String → Free → Free
remove_key k [] = []
remove_key k ((j, f) ∷ free) =
    let rest = remove_key k free in if str_eq j k then rest else (j, f) ∷ rest

pub record Target : Type 0 where
  pub key : String
  pub labels : Labels
  pub taints : List Taint

-- The first target with room for the pod.
abbrev pub slot_for : PodView → Free → List Target → Option Target
slot_for p trial targets =
    find
      (λ t.
        is_some_and (lookup t.key trial) (λ f. fits f p.requests)
        && pod_matches_node p t.labels t.taints)
      targets

abbrev pub take_slot : PodView → Target → Free → Free
take_slot p t trial = elim (lookup t.key trial) [
  | none ↦ trial
  | some f ↦ insert t.key (minus f p.requests) trial
]

-- Every pod finds a target, or nothing.
unfoldable pub fit_all : List PodView → List Target → Free → Option Free
fit_all [] targets trial = some trial
fit_all (p ∷ ps) targets trial = elim (slot_for p trial targets) [
  | none ↦ none
  | some t ↦ fit_all ps targets (take_slot p t trial)
]

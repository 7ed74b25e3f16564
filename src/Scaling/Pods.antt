-- ===== src/Scaling/Pods.antt =====
-- How a pod counts when its machine is drained (src/scaling.rs).
use kube_hardware_autoscaler.Base.{
  String, Bool, ◌&&◌, ◌||◌, not, Option, str_eq, any, is_empty, lookup, is_some, is_some_and,
  or_option, if◌then◌else◌,
}
use kube_hardware_autoscaler.Cluster.{Pod}

pub data DrainClass : Type 0 where
  ignore : DrainClass
  evict : DrainClass
  block : (why : String) → DrainClass

abbrev is_text : Option String → String → Bool
is_text o s = is_some_and o (λ t. str_eq t s)

unfoldable pub is_active : Pod → Bool
is_active pod = not (is_text pod.phase "Succeeded" || is_text pod.phase "Failed")

unfoldable pub is_daemonset_pod : Pod → Bool
is_daemonset_pod pod = any (λ kind. str_eq kind "DaemonSet") pod.owner_kinds

unfoldable pub is_mirror_pod : Pod → Bool
is_mirror_pod pod = is_some (lookup "kubernetes.io/config.mirror" pod.annotations)

abbrev is_helper_component : Option String → Bool
is_helper_component c = is_text c "sleep-probe" || (is_text c "shutdown" || is_text c "wake-relay")

unfoldable pub is_operator_helper_pod : Pod → Bool
is_operator_helper_pod pod =
    is_text (lookup "app.kubernetes.io/name" pod.labels) "kube-hardware-autoscaler"
    && is_helper_component (lookup "app.kubernetes.io/component" pod.labels)

-- The `safe-to-evict` annotation, the operator's own before the cluster autoscaler's.
unfoldable pub safe_to_evict : Pod → Option String
safe_to_evict pod =
    or_option (lookup "hardware-autoscaler.safewords.com/safe-to-evict" pod.annotations)
      (lookup "cluster-autoscaler.kubernetes.io/safe-to-evict" pod.annotations)

abbrev pub not_safe : String
not_safe = "annotated safe-to-evict=false"

abbrev pub unmanaged : String
unmanaged = "not managed by a controller"

-- The class of a pod that is neither a DaemonSet's nor a mirror pod.
workload_class : Option String → Pod → DrainClass
workload_class safe pod =
    if is_text safe "false"
    then block not_safe
    else if is_text safe "true"
    then evict
    else if is_empty pod.owner_kinds
    then block unmanaged
    else evict

unfoldable pub drain_class : Pod → DrainClass
unfolding workload_class
drain_class pod =
    if not (is_active pod) || is_operator_helper_pod pod
    then ignore
    else if is_daemonset_pod pod || is_mirror_pod pod
    then (if is_text (safe_to_evict pod) "false" then block not_safe else ignore)
    else workload_class (safe_to_evict pod) pod

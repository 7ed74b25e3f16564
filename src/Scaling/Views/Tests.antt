-- ===== src/Scaling/Views/Tests.antt =====
-- The request of a pod with two containers and an init container (src/resources.rs).
use kube_hardware_autoscaler.Base.{
  ℕ, true, false, ◌≡◌, refl, ◌↔◌, String, Option, none, some, [], ◌∷◌, str_eq, if◌then◌else◌, arith,
}
use kube_hardware_autoscaler.Base.Int.{pos, ◌≤ℤ◌, ◌+ℤ◌}
use kube_hardware_autoscaler.Scaling.Views.{
  Container, PodSpec, PodObject, pod_requests, is_unschedulable, is_extended_resource,
}
use kube_hardware_autoscaler.Scaling.Views.Requests.{parse, cpu, memory, Runs, pod_requests-Runs}
use kube_hardware_autoscaler.Samples.{pod}

-- The quantities of these pods, at any scale.
abbrev number : String → ℕ → Option ℕ
number q scale = if str_eq q "100m" then some 100 else if str_eq q "1" then some scale else none

abbrev container : String → Container
container q = record { requests = some (("cpu", q) ∷ []); limits = none }

abbrev spec : PodSpec
spec = record {
  node_name = none;
  scheduling_gates = [];
  containers = container "100m" ∷ container "100m" ∷ [];
  init_containers = container "1" ∷ [];
  overhead = some (("cpu", "100m") ∷ []);
  node_selector = [];
  affinity_terms = [];
  tolerations = [];
}

pod_requests-Runs_example :
    (((pod_requests (parse number) (some spec)).cpu_millis ≤ℤ pos 1100)
      ↔ Runs number (cpu number) 100 spec 1100)
    × (((pod_requests (parse number) (some spec)).memory_bytes ≤ℤ pos 0)
        ↔ Runs number (memory number) 0 spec 0)
pod_requests-Runs_example = pod_requests-Runs number spec 1100 0 (omega arith) (omega arith)

init_container_counts : (pod_requests (parse number) (some spec)).cpu_millis ≡ pos 1100
unfolding pod_requests ◌+ℤ◌
init_container_counts = refl

abbrev waiting : PodObject
waiting = record {
  pod = record pod { phase = some "Pending" };
  spec = some spec;
  created = none;
  conditions =
      record { kind = "PodScheduled"; status = "False"; reason = some "Unschedulable" } ∷ [];
}

waits : is_unschedulable waiting ≡ true
unfolding is_unschedulable
waits = refl

gated_waits_not :
    is_unschedulable
      (record waiting { spec = some (record spec { scheduling_gates = "gate" ∷ [] }) })
    ≡ false
unfolding is_unschedulable
gated_waits_not = refl

gpu_is_extended : is_extended_resource "gpu.intel.com/i915" ≡ true
unfolding is_extended_resource
gpu_is_extended = refl

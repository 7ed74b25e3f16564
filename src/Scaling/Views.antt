-- ===== src/Scaling/Views.antt =====
-- What a plan sees of the pods (`PodView::from_pod` and `is_unschedulable`, src/scaling.rs;
-- `pod_requests` and `pod_extended_requests`, src/resources.rs). A resource quantity is a text;
-- `parse` is `parse_quantity`, which reads it as a floating point number times a scale.
pub mod Requests
pub mod Tests
use kube_hardware_autoscaler.Base.{
  ℕ, String, Bool, ◌&&◌, not, Option, none, some, List, [], ◌∷◌, map, filter, str_eq, any, ◌==◌,
  lookup, insert, is_some, is_some_and, is_empty, unwrap_or, or_option, if◌then◌else◌,
}
use kube_hardware_autoscaler.Base.Int.{ℤ, pos, ltb_ℤ, max_ℤ, ◌+ℤ◌}
use kube_hardware_autoscaler.Base.Texts.{Chars, codes, strip_prefix}
use kube_hardware_autoscaler.Base.Time.{Time}
use kube_hardware_autoscaler.Crd.Amounts.{ResourceAmounts, no_amounts}
use kube_hardware_autoscaler.Crd.Selector.{Labels}
use kube_hardware_autoscaler.Cluster.{Pod, Toleration}
use kube_hardware_autoscaler.Scaling.Fit.{PodView, Requirement}

abbrev pub Quantities : Type 0
Quantities = List (String × String)

abbrev pub Extended : Type 0
Extended = List (String × ℤ)

pub record Container : Type 0 where
  pub requests : Option Quantities
  pub limits : Option Quantities

pub record PodSpec : Type 0 where
  pub node_name : Option String
  pub scheduling_gates : List String
  pub containers : List Container
  pub init_containers : List Container
  pub overhead : Option Quantities
  pub node_selector : Labels
  pub affinity_terms : List (Option (List Requirement))
  pub tolerations : List Toleration

-- A condition of the pod's status.
pub record PodCondition : Type 0 where
  pub kind : String
  pub status : String
  pub reason : Option String

-- The pod as the cache holds it, with the parts that `Pod` has not.
pub record PodObject : Type 0 where
  pub pod : Pod
  pub spec : Option PodSpec
  pub created : Option Time
  pub conditions : List PodCondition

abbrev has_slash : Chars → Bool
has_slash name = any (λ c. c == b'/') name

abbrev starts_with : String → Chars → Bool
starts_with prefix name = is_some (strip_prefix (codes prefix) name)

unfoldable pub is_extended_resource : String → Bool
is_extended_resource name =
    has_slash (codes name)
    && (not (starts_with "kubernetes.io/" (codes name))
        && not (starts_with "requests." (codes name)))

module _ (parse : String → ℕ → Option ℤ) where
  abbrev parsed : Option String → ℕ → Option ℤ
  parsed none scale = none
  parsed (some q) scale = parse q scale

  abbrev get : Quantities → String → ℕ → ℤ
  get m key scale = unwrap_or (parsed (lookup key m) scale) (pos 0)

  abbrev amounts : Quantities → ResourceAmounts
  amounts m = record {
    cpu_millis = get m "cpu" 1000;
    memory_bytes = get m "memory" 1;
    pods = get m "pods" 1;
  }

  -- The amounts of a map that may be missing.
  abbrev pub amounts_of : Option Quantities → ResourceAmounts
  amounts_of none = no_amounts
  amounts_of (some m) = amounts m

  -- The loop over the containers, and the one over the init containers.
  abbrev pub add_all : List Container → ResourceAmounts → ResourceAmounts
  add_all [] sum = sum
  add_all (c ∷ cs) sum =
      let r = amounts_of c.requests in
      add_all cs (record sum {
        cpu_millis = sum.cpu_millis +ℤ r.cpu_millis;
        memory_bytes = sum.memory_bytes +ℤ r.memory_bytes;
      })

  abbrev pub max_all : List Container → ResourceAmounts → ResourceAmounts
  max_all [] sum = sum
  max_all (c ∷ cs) sum =
      let r = amounts_of c.requests in
      max_all cs (record sum {
        cpu_millis = max_ℤ sum.cpu_millis r.cpu_millis;
        memory_bytes = max_ℤ sum.memory_bytes r.memory_bytes;
      })

  abbrev pub add_overhead : Option Quantities → ResourceAmounts → ResourceAmounts
  add_overhead none sum = sum
  add_overhead (some overhead) sum =
      let o = amounts overhead in
      record sum {
        cpu_millis = sum.cpu_millis +ℤ o.cpu_millis;
        memory_bytes = sum.memory_bytes +ℤ o.memory_bytes;
      }

  unfoldable pub pod_requests : Option PodSpec → ResourceAmounts
  pod_requests none = record no_amounts { pods = pos 1 }
  pod_requests (some spec) =
      let sum = max_all spec.init_containers (add_all spec.containers no_amounts) in
      record (add_overhead spec.overhead sum) { pods = pos 1 }

  -- The extended resources of a map, and those of a container: its requests, or its limits.
  abbrev pub extended : Quantities → Extended
  extended [] = []
  extended ((k, q) ∷ rest) =
      let more = extended rest in
      if is_extended_resource k
      then elim (parse q 1) [ none ↦ more | some v ↦ (k, v) ∷ more ]
      else more

  abbrev pub extended_of : Option Quantities → Extended
  extended_of none = []
  extended_of (some m) = extended m

  -- The amounts of a Node, from its `allocatable` and `capacity`, and its extended resources.
  abbrev pub node_allocatable : Option Quantities → Option Quantities → ResourceAmounts
  node_allocatable allocatable capacity = amounts_of (or_option allocatable capacity)

  abbrev pub node_extended : Option Quantities → Extended
  node_extended allocatable = extended_of allocatable

  abbrev override_with : Extended → Extended → Extended
  override_with [] out = out
  override_with ((k, v) ∷ rest) out = override_with rest (insert k v out)

  abbrev extended_requests : Container → Extended
  extended_requests c = override_with (extended_of c.requests) (extended_of c.limits)

  -- `entry(k).or_default()`, with what is done to the entry.
  abbrev at_entry : (ℤ → ℤ → ℤ) → Extended → Extended → Extended
  at_entry f [] sum = sum
  at_entry f ((k, v) ∷ rest) sum =
      at_entry f rest (insert k (f (unwrap_or (lookup k sum) (pos 0)) v) sum)

  abbrev extended_all : (ℤ → ℤ → ℤ) → List Container → Extended → Extended
  extended_all f [] sum = sum
  extended_all f (c ∷ cs) sum = extended_all f cs (at_entry f (extended_requests c) sum)

  unfoldable pub pod_extended_requests : Option PodSpec → Extended
  pod_extended_requests none = []
  pod_extended_requests (some spec) =
      filter (λ e. ltb_ℤ (pos 0) e.1)
        (extended_all max_ℤ spec.init_containers (extended_all ◌+ℤ◌ spec.containers []))

  abbrev match_expressions : Option (List Requirement) → List Requirement
  match_expressions t = unwrap_or t []

  unfoldable pub from_pod : PodObject → PodView
  from_pod o = record {
    namespace = o.pod.namespace;
    name = o.pod.name;
    requests = pod_requests o.spec;
    node_selector = elim o.spec [ none ↦ [] | some s ↦ s.node_selector ];
    affinity_terms = elim o.spec [ none ↦ [] | some s ↦ map match_expressions s.affinity_terms ];
    tolerations = elim o.spec [ none ↦ [] | some s ↦ s.tolerations ];
    created = o.created;
    extended_requests = pod_extended_requests o.spec;
  }

-- The scheduler's verdict.
abbrev cannot_schedule : PodCondition → Bool
cannot_schedule c =
    str_eq c.kind "PodScheduled"
    && (str_eq c.status "False" && is_some_and c.reason (λ r. str_eq r "Unschedulable"))

unfoldable pub is_unschedulable : PodObject → Bool
is_unschedulable o =
    not (is_some_and o.spec (λ s. is_some s.node_name))
    && (not (is_some_and o.spec (λ s. not (is_empty s.scheduling_gates)))
        && (is_some_and o.pod.phase (λ p. str_eq p "Pending")
            && (any cannot_schedule o.conditions && not o.pod.deleted)))

-- ===== src/Membership/Tests.antt =====
-- The pools of a machine (src/membership.rs).
use kube_hardware_autoscaler.Base.{true, not, ◌&&◌, ◌≡◌, some, List, [], ◌∷◌, str_eq, any, contains}
use kube_hardware_autoscaler.Crd.Selector.{Labels, matches}
use kube_hardware_autoscaler.Membership.{Pool, pools_of, resolve}
use kube_hardware_autoscaler.Membership.Resolve.{InOrder, contains-resolve}
use kube_hardware_autoscaler.Samples.{pool_named}

abbrev labels : Labels
labels = ("role", "worker") ∷ []

abbrev pools : List Pool
pools = record (pool_named "c" []) { deleted = true } ∷ pool_named "b" [] ∷ pool_named "a" [] ∷ []

contains-resolve_example :
    InOrder (pools_of (resolve (some labels) pools))
    × (contains (pools_of (resolve (some labels) pools)) "a"
        ≡ any
            (λ p. not p.deleted && (matches p.spec.node_selector labels && str_eq p.name "a"))
            pools)
contains-resolve_example = contains-resolve "a" labels pools

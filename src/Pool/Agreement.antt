-- ===== src/Pool/Agreement.antt =====
-- How overlapping pools agree (`other_pools_holding`, src/controller/node_scaling_pool.rs), and the
-- check of preferred nodes (`preferred_node_problems`).
use kube_hardware_autoscaler.Base.{
  String, Bool, true, false, ◌≡◌, ◌⊎◌, Option, none, some, List, [], ◌∷◌, arith, str_eq, find,
  contains, lookup, unwrap_or, if◌then◌else◌, All,
}
use kube_hardware_autoscaler.Crd.Selector.{Labels, matches}
use kube_hardware_autoscaler.Crd.Spec.{PreferredNode, NodeScalingPoolSpec}
use kube_hardware_autoscaler.Membership.{Pool}

abbrev pool_named : List Pool → String → Option Pool
pool_named pools name = find (λ p. str_eq p.name name) pools

-- The pool lists the machine in `status.releasable`: a pool that is gone does not.
abbrev pub releases : String → List Pool → String → Bool
releases machine pools name = elim (pool_named pools name) [
  | none ↦ false
  | some p ↦ contains p.releasable machine
]

abbrev reason_to_hold : String → Option Pool → String
reason_to_hold machine none = "not evaluated yet"
reason_to_hold machine (some p) = unwrap_or (lookup machine p.needed) "not evaluated yet"

-- One pool that selects the machine.
hold_by : String → String → List Pool → String → Option (String × String)
hold_by machine this_pool pools other =
    if str_eq other this_pool
    then none
    else if releases machine pools other
    then none
    else some (other, reason_to_hold machine (pool_named pools other))

abbrev push_hold : Option (String × String) → List (String × String) → List (String × String)
push_hold none holds = holds
push_hold (some h) holds = h ∷ holds

unfoldable pub other_pools_holding :
    String → List String → String → List Pool → List (String × String)
unfolding hold_by
other_pools_holding machine [] this_pool pools = []
other_pools_holding machine (p ∷ ps) this_pool pools =
    push_hold (hold_by machine this_pool pools p) (other_pools_holding machine ps this_pool pools)

-- Where no pool holds a machine, every other pool that selects it agrees: each pool of the list is
-- this one, or is known and lists the machine as releasable.
pub no_holds_agreed :
    (machine : String) (member_of : List String) (this_pool : String) (pools : List Pool)
    → other_pools_holding machine member_of this_pool pools ≡ []
    → All (λ p. (str_eq p this_pool ≡ true) ⊎ (releases machine pools p ≡ true)) member_of
unfolding other_pools_holding hold_by
no_holds_agreed machine [] this_pool pools h = tt
no_holds_agreed machine (p ∷ ps) this_pool pools h =
    ground (arith, no_holds_agreed machine ps this_pool pools)

-- Entries of `scaleUp.preferredNodes` that name no Node, and those the pool does not select.
unfoldable pub note_problem :
    String
    → Option Labels
    → NodeScalingPoolSpec
    → List String × List String
    → List String × List String
note_problem name none pool (missing, outside) = (name ∷ missing, outside)
note_problem name (some labels) pool (missing, outside) =
    if matches pool.node_selector labels then (missing, outside) else (missing, name ∷ outside)

unfoldable pub preferred_node_problems :
    NodeScalingPoolSpec → (String → Option Labels) → List PreferredNode → List String × List String
unfolding note_problem
preferred_node_problems pool labels_of [] = ([], [])
preferred_node_problems pool labels_of (p ∷ ps) =
    note_problem p.name (labels_of p.name) pool (preferred_node_problems pool labels_of ps)

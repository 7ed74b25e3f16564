-- ===== src/Pool/Cycle/Writes.antt =====
-- What a cycle writes (`reconcile`, src/controller/node_scaling_pool.rs).
use kube_hardware_autoscaler.Base.{
  String, Bool, true, false, not, ◌≡◌, Option, none, some, List, [], ◌∷◌, any, is_some, or_option,
}
use kube_hardware_autoscaler.Base.Time.{Time}
use kube_hardware_autoscaler.Crd.Enums.{PowerTarget}
use kube_hardware_autoscaler.Crd.Status.{ScalingDecision}
use kube_hardware_autoscaler.Machine.Run.{ApiError}
use kube_hardware_autoscaler.Pool.Decisions.{PlannedDecision}
use kube_hardware_autoscaler.Pool.Cycle.{
  Effect, decided, pool_event, machine_event, patched, target_of, member_of, decision,
}

-- The decisions written, and whether the status is.
abbrev pub decided_of : List Effect → List (String × ScalingDecision)
decided_of [] = []
decided_of (decided m d ∷ es) = (m, d) ∷ decided_of es
decided_of (pool_event r ∷ es) = decided_of es
decided_of (machine_event r ∷ es) = decided_of es
decided_of (patched s ∷ es) = decided_of es

abbrev pub is_patched : Effect → Bool
is_patched (patched s) = true
is_patched _ = false

abbrev wanted_one :
    String
    → Time
    → PlannedDecision
    → Option PowerTarget
    → List (String × ScalingDecision)
    → List (String × ScalingDecision)
wanted_one pool now d none rest = rest
wanted_one pool now d (some t) rest = (member_of d, decision pool now t) ∷ rest

-- The decisions of a plan that are power actions.
abbrev pub wanted : String → Time → List PlannedDecision → List (String × ScalingDecision)
wanted pool now [] = []
wanted pool now (d ∷ ds) = wanted_one pool now d (target_of d.action) (wanted pool now ds)

module _ (answer : String → Option ApiError) where
  -- How far a run came through what was wanted, with its error: what was written is what was wanted,
  -- one by one, and each of these writes succeeded; it ended before the next one because that write
  -- failed with this error, or there was none left.
  abbrev pub Ran :
      List (String × ScalingDecision) → List (String × ScalingDecision) → Option ApiError → Type 0
  Ran [] [] e = e ≡ none
  Ran [] (y ∷ ys) e = ⊥
  Ran (x ∷ xs) [] e = (answer x.0 ≡ e) × (is_some e ≡ true)
  Ran (x ∷ xs) (y ∷ ys) e = (x ≡ y) × (answer x.0 ≡ none) × Ran xs ys e

module _ (pool : String) (now : Time) (managed : List String)
    (answer : String → Option ApiError) where
  abbrev Writes : List (String × ScalingDecision) → List Effect × Option ApiError → Type 0
  Writes all r = Ran answer all (decided_of r.0) r.1 × (any is_patched r.0 ≡ false)

-- The end of the loop and the patch of the status.
module _ (answer : String → Option ApiError) (patching : Option ApiError)
    (all : List (String × ScalingDecision)) where
  -- What a cycle comes to: the loop, then the patch unless the loop failed. The cycle ends with the
  -- loop's error, or else with the patch's; the status is written if there is neither.
  abbrev pub Ended : List Effect × Option ApiError → Type 0
  Ended r =
      (failure : Option ApiError) × Ran answer all (decided_of r.0) failure
      × (r.1 ≡ or_option failure patching)
      × (any is_patched r.0 ≡ not (is_some r.1))

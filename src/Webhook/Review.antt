-- ===== src/Webhook/Review.antt =====
-- Which pools the webhook refuses (`review_pool`, src/webhook.rs).
use kube_hardware_autoscaler.Base.{
  String, Bool, true, false, ◌&&◌, not, ◌≡◌, refl, ◌∙◌, Option, none, some, List, [], ◌∷◌, arith,
  if◌then◌else◌, any, filter, is_empty, is_some,
}
use kube_hardware_autoscaler.Crd.Selector.{Labels}
use kube_hardware_autoscaler.Crd.Spec.{PreferredNode, NodeScalingPoolSpec}
use kube_hardware_autoscaler.Pool.Agreement.{note_problem, preferred_node_problems}
use kube_hardware_autoscaler.Webhook.{Verdict, Warning, admit, refuse, was_listed, review_pool}

abbrev pub is_refused : Verdict → Bool
is_refused (admit ws) = false
is_refused (refuse names) = true

-- An entry that names no Node, and did not stand in the pool before.
abbrev pub is_new_and_missing :
    Option NodeScalingPoolSpec → (String → Option Labels) → PreferredNode → Bool
is_new_and_missing old labels_of p = not (is_some (labels_of p.name)) && not (was_listed old p.name)

module _ (new : NodeScalingPoolSpec) (labels_of : String → Option Labels) (q : String → Bool) where
  is_empty-note_problem :
      (name : String) (found : Option Labels) (r : List String × List String)
      → is_empty (filter q (note_problem name found new r).0)
        ≡ (not (not (is_some found) && q name) && is_empty (filter q r.0))
  unfolding note_problem
  is_empty-note_problem name none r = ground arith
  is_empty-note_problem name (some l) r = ground arith

  is_empty-problems :
      (ps : List PreferredNode)
      → is_empty (filter q (preferred_node_problems new labels_of ps).0)
        ≡ not (any (λ p. not (is_some (labels_of p.name)) && q p.name) ps)
  unfolding preferred_node_problems
  is_empty-problems [] = refl
  is_empty-problems (p ∷ ps) =
      is_empty-note_problem p.name (labels_of p.name) (preferred_node_problems new labels_of ps)
      ∙ ground (arith, is_empty-problems ps)

verdict_lem :
    (refused : List String) (ws : List Warning) (b : Bool)
    → is_empty refused ≡ not b
    → is_refused (if is_empty refused then admit ws else refuse refused) ≡ b
verdict_lem refused ws true h = rw h refl
verdict_lem refused ws false h = rw h refl

-- A pool is refused exactly if it prefers a Node that does not exist and that the pool did not list
-- before. So a Node that disappears does not block later edits of a pool that listed it.
pub is_refused-review_pool :
    (new : NodeScalingPoolSpec) (old : Option NodeScalingPoolSpec)
    (labels_of : String → Option Labels)
    → is_refused (review_pool new old labels_of)
      ≡ any (is_new_and_missing old labels_of) new.scale_up.preferred_nodes
unfolding review_pool
is_refused-review_pool new old labels_of =
    verdict_lem _ _ _
      (is_empty-problems new labels_of (λ n. not (was_listed old n)) new.scale_up.preferred_nodes)

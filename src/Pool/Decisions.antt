-- ===== src/Pool/Decisions.antt =====
-- The decision log of a pool (`record_decisions`, src/controller/node_scaling_pool.rs). A reason is
-- a text there.
use kube_hardware_autoscaler.Base.{
  ℕ, ◌-◌, ◌≤◌, String, Bool, not, ◌&&◌, ◌≡◌, refl, Option, none, some, List, [], ◌∷◌, ◌++◌, arith,
  str_eq, length, length-drop, drop, filter, is_some_and, if◌then◌else◌,
}
use kube_hardware_autoscaler.Base.Time.{Time}
use kube_hardware_autoscaler.Crd.Enums.{DecisionAction, is_no_action}

pub record PlannedDecision : Type 0 where
  pub action : DecisionAction
  pub node : Option String
  pub reason : String
  pub live_reason : String
  pub candidates : String

pub record DecisionRecord : Type 0 where
  pub time : Time
  pub action : DecisionAction
  pub node : Option String
  pub reason : String
  pub candidates : String

abbrev pub max_recent_decisions : ℕ
max_recent_decisions = 20

abbrev last? : List DecisionRecord → Option DecisionRecord
last? [] = none
last? (r ∷ rs) = elim (last? rs) [ none ↦ some r | some l ↦ some l ]

abbrev pub as_record : Time → PlannedDecision → DecisionRecord
as_record now d = record {
  time = now;
  action = d.action;
  node = d.node;
  reason = d.reason;
  candidates = d.candidates;
}

-- A `NoAction` with the reason of the latest one.
abbrev pub repeats : List DecisionRecord → PlannedDecision → Bool
repeats recent d =
    is_no_action d.action
    && is_some_and (last? recent) (λ r. is_no_action r.action && str_eq r.reason d.reason)

-- The loop: the log and the decisions that are new.
unfoldable pub append_decisions :
    List DecisionRecord → List PlannedDecision → Time → List DecisionRecord × List PlannedDecision
append_decisions recent [] now = (recent, [])
append_decisions recent (d ∷ ds) now =
    let skipped = append_decisions recent ds now in
    let (log, new) = append_decisions (recent ++ (as_record now d ∷ [])) ds now in
    if repeats recent d then skipped else (log, d ∷ new)

abbrev keep_latest : List DecisionRecord → List DecisionRecord
keep_latest log = drop (length log - max_recent_decisions) log

unfoldable pub record_decisions :
    List DecisionRecord → List PlannedDecision → Time → List DecisionRecord × List PlannedDecision
unfolding append_decisions
record_decisions recent decisions now =
    let (log, new) = append_decisions recent decisions now in (keep_latest log, new)

abbrev pub actions : List PlannedDecision → List PlannedDecision
actions ds = filter (λ d. not (is_no_action d.action)) ds

append_decisions_actions :
    (recent : List DecisionRecord) (ds : List PlannedDecision) (now : Time)
    → actions (append_decisions recent ds now).1 ≡ actions ds
unfolding append_decisions
append_decisions_actions recent [] now = refl
append_decisions_actions recent (d ∷ ds) now = ground (
  arith,
  append_decisions_actions recent ds now,
  append_decisions_actions (recent ++ (as_record now d ∷ [])) ds now,
)

drop_excess : (log : List DecisionRecord) → length (keep_latest log) ≤ max_recent_decisions
drop_excess log = omega (arith, length-drop (length log - max_recent_decisions) log)

-- The log keeps at most 20 decisions, and no power action is lost: those reported as new are exactly
-- the planned ones, in order.
pub record_decisions_bounded :
    (recent : List DecisionRecord) (decisions : List PlannedDecision) (now : Time)
    → (length (record_decisions recent decisions now).0 ≤ max_recent_decisions)
      × (actions (record_decisions recent decisions now).1 ≡ actions decisions)
unfolding record_decisions
record_decisions_bounded recent decisions now = (
  drop_excess (append_decisions recent decisions now).0,
  append_decisions_actions recent decisions now,
)

-- ===== src/Crd/Conditions.antt =====
-- Status conditions: `set_condition` and `condition_is_true` (src/crd.rs).
use kube_hardware_autoscaler.Base.{String, Bool, ◌&&◌, List, [], ◌∷◌, str_eq, any, if◌then◌else◌}
use kube_hardware_autoscaler.Base.Time.{Time}
use kube_hardware_autoscaler.Crd.Status.{Condition}

abbrev update_condition : Condition → String → String → Time → Condition
update_condition c status reason now = record c {
  status = status;
  reason = reason;
  last_transition_time = if str_eq c.status status then c.last_transition_time else now;
}

-- The message of a condition is text for people and is left out.
unfoldable pub set_condition : List Condition → String → String → String → Time → List Condition
set_condition [] kind status reason now =
    record { kind = kind; status = status; reason = reason; last_transition_time = now } ∷ []
set_condition (c ∷ cs) kind status reason now =
    if str_eq c.kind kind
    then update_condition c status reason now ∷ cs
    else c ∷ set_condition cs kind status reason now

abbrev pub condition_is : List Condition → String → String → Bool
condition_is conditions kind status =
    any (λ c. str_eq c.kind kind && str_eq c.status status) conditions

abbrev pub condition_is_true : List Condition → String → Bool
condition_is_true conditions kind = condition_is conditions kind "True"

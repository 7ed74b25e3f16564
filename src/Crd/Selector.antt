-- ===== src/Crd/Selector.antt =====
-- Which Nodes a pool selects by their labels (`NodeSelector`, src/crd.rs).
use kube_hardware_autoscaler.Base.{
  String, Bool, false, ◌&&◌, not, Option, List, str_eq, is_empty, all, contains, lookup,
  is_some_and, is_none_or, is_some, if◌then◌else◌,
}

-- A `BTreeMap<String, String>`.
abbrev pub Labels : Type 0
Labels = List (String × String)

pub data LabelOperator : Type 0 where
  is_in not_in exists does_not_exist : LabelOperator

pub record LabelRequirement : Type 0 where
  pub key : String
  pub operator : LabelOperator
  pub values : List String

pub record NodeSelector : Type 0 where
  pub match_labels : Labels
  pub match_expressions : List LabelRequirement

-- `labels.get(k) == Some(v)`.
abbrev pub has_label : Labels → String × String → Bool
has_label labels (k, v) = is_some_and (lookup k labels) (λ w. str_eq w v)

selector_is_empty : NodeSelector → Bool
selector_is_empty s = is_empty s.match_labels && is_empty s.match_expressions

abbrev holds : LabelOperator → List String → Option String → Bool
holds LabelOperator.is_in values value = is_some_and value (contains values)
holds LabelOperator.not_in values value = is_none_or value (λ v. not (contains values v))
holds LabelOperator.exists values value = is_some value
holds LabelOperator.does_not_exist values value = not (is_some value)

abbrev pub label_requirement_matches : Labels → LabelRequirement → Bool
label_requirement_matches labels r = holds r.operator r.values (lookup r.key labels)

-- `NodeSelector::matches`.
unfoldable pub matches : NodeSelector → Labels → Bool
unfolding selector_is_empty
matches s labels =
    if selector_is_empty s
    then false
    else all (has_label labels) s.match_labels
      && all (label_requirement_matches labels) s.match_expressions

-- ===== src/Scaling/Fit.antt =====
-- Whether a pod may run on a Node, resources aside (`tolerates`, `requirement_matches`,
-- `pod_matches_node` and `PodView`, src/scaling.rs).
use Prim.Native.Char.{code}
use kube_hardware_autoscaler.Base.{
  ℕ, ◌+◌, ◌-◌, ◌*◌, String, Bool, false, ◌&&◌, ◌||◌, not, Option, none, some, List, [], ◌∷◌, str_eq,
  ltb, leb, any, all, filter, head?, is_empty, contains, lookup, is_some, is_some_and, is_none_or,
  unwrap_or, if◌then◌else◌,
}
use kube_hardware_autoscaler.Base.Int.{ℤ, pos, ltb_ℤ, half_i64}
use kube_hardware_autoscaler.Base.Time.{Time, negate}
use kube_hardware_autoscaler.Crd.Amounts.{ResourceAmounts}
use kube_hardware_autoscaler.Crd.Selector.{Labels, NodeSelector, has_label}
use kube_hardware_autoscaler.Cluster.{Taint, Toleration}

-- `NodeSelectorRequirement`: the operator is a text there.
pub record Requirement : Type 0 where
  pub key : String
  pub operator : String
  pub values : Option (List String)

pub record PodView : Type 0 where
  pub namespace : String
  pub name : String
  pub requests : ResourceAmounts
  pub node_selector : Labels
  pub affinity_terms : List (List Requirement)
  pub tolerations : List Toleration
  pub created : Option Time
  pub extended_requests : List (String × ℤ)

abbrev pub transient_taints : List String
transient_taints =
    "node.kubernetes.io/unschedulable" ∷ "node.kubernetes.io/not-ready"
    ∷ "node.kubernetes.io/unreachable" ∷ "node.kubernetes.io/network-unavailable"
    ∷ "node.cloudprovider.kubernetes.io/shutdown" ∷ "node.kubernetes.io/out-of-service"
    ∷ "node.cilium.io/agent-not-ready" ∷ []

abbrev is_exists : Option String → Bool
is_exists o = is_some_and o (λ op. str_eq op "Exists")

key_ok : Toleration → Taint → Bool
key_ok t taint = elim t.key [
  | none ↦ is_exists t.operator
  | some k ↦ if str_eq k "" then is_exists t.operator else str_eq k taint.key
]

toleration_matches : Taint → Toleration → Bool
unfolding key_ok
toleration_matches taint t =
    is_none_or t.effect (λ e. str_eq e "" || str_eq e taint.effect)
    && (key_ok t taint
        && (is_exists t.operator || str_eq (unwrap_or t.value "") (unwrap_or taint.value "")))

unfoldable pub tolerates : List Toleration → Taint → Bool
unfolding toleration_matches
tolerates tolerations taint = any (toleration_matches taint) tolerations

abbrev codes : String → List ℕ
codes String.[] = []
codes (String.◌∷◌ c s) = code c ∷ codes s

-- The value of decimal digits after those read already; nothing for another character.
abbrev digits : ℕ → List ℕ → Option ℕ
digits acc [] = some acc
digits acc (c ∷ cs) =
    let rest = digits (acc * 10 + (c - b'0')) cs in if leb b'0' c && leb c b'9' then rest else none

abbrev positive : List ℕ → Option ℤ
positive [] = none
positive (c ∷ cs) = elim (digits 0 (c ∷ cs)) [
  | none ↦ none
  | some n ↦ if ltb n half_i64 then some (pos n) else none
]

abbrev negative : List ℕ → Option ℤ
negative [] = none
negative (c ∷ cs) = elim (digits 0 (c ∷ cs)) [
  | none ↦ none
  | some n ↦ if leb n half_i64 then some (negate n) else none
]

signed : List ℕ → Option ℤ
signed [] = none
signed (c ∷ cs) =
    if leb c b'-' && leb b'-' c
    then negative cs
    else if leb c b'+' && leb b'+' c
    then positive cs
    else positive (c ∷ cs)

-- `str::parse::<i64>().ok()`: an optional sign and digits, in the range of `i64`.
unfoldable pub as_int : String → Option ℤ
unfolding signed
as_int s = signed (codes s)

abbrev both : Option ℤ → Option ℤ → (ℤ → ℤ → Bool) → Bool
both (some a) (some b) f = f a b
both _ _ f = false

abbrev parsed : Option String → Option ℤ
parsed none = none
parsed (some s) = as_int s

-- The arms of the `match` on the operator, in its order.
by_operator : String → List String → Option String → Bool
by_operator op values value =
    if str_eq op "In"
    then is_some_and value (contains values)
    else if str_eq op "NotIn"
    then is_none_or value (λ v. not (contains values v))
    else if str_eq op "Exists"
    then is_some value
    else if str_eq op "DoesNotExist"
    then not (is_some value)
    else if str_eq op "Gt"
    then both (parsed value) (parsed (head? values)) (λ a b. ltb_ℤ b a)
    else if str_eq op "Lt"
    then both (parsed value) (parsed (head? values)) ltb_ℤ
    else false

unfoldable pub requirement_matches : Labels → Requirement → Bool
unfolding by_operator
requirement_matches labels r = by_operator r.operator (unwrap_or r.values []) (lookup r.key labels)

abbrev pub restricts : Taint → Bool
restricts t =
    (str_eq t.effect "NoSchedule" || str_eq t.effect "NoExecute")
    && not (contains transient_taints t.key)

unfoldable pub pod_matches_node : PodView → Labels → List Taint → Bool
pod_matches_node pod labels taints =
    all (has_label labels) pod.node_selector
    && ((is_empty pod.affinity_terms || any (all (requirement_matches labels)) pod.affinity_terms)
        && all (tolerates pod.tolerations) (filter restricts taints))

-- The term requires exactly this value of the label.
abbrev pins : String × String → Requirement → Bool
pins (key, value) r =
    str_eq r.key key
    && (str_eq r.operator "In"
        && is_some_and r.values (λ v. not (is_empty v) && all (λ x. str_eq x value) v))

-- `PodView::explicitly_selects`.
unfoldable pub explicitly_selects : PodView → NodeSelector → Bool
explicitly_selects pod pool =
    if is_empty pool.match_labels
    then false
    else all
        (λ l.
          has_label pod.node_selector l
          || (not (is_empty pod.affinity_terms) && all (any (pins l)) pod.affinity_terms))
        pool.match_labels

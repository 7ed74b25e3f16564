-- ===== src/Webhook.antt =====
-- The admission webhook (src/webhook.rs): the review of a pool, and the certificate that the webhook
-- serves. What the API server and the certificate library answer is given.
pub mod Review
pub mod Certificate
pub mod Tests
use kube_hardware_autoscaler.Base.{
  ℕ, zero, suc, ◌+◌, ◌*◌, String, Bool, true, false, ◌&&◌, ◌||◌, not, Option, none, some, List, [],
  ◌∷◌, ◌++◌, str_eq, ltb, ◌==◌, if◌then◌else◌, any, filter, find, lookup, is_empty, is_some_and,
  or_option,
}
use kube_hardware_autoscaler.Base.Time.{Time, nanos}
use kube_hardware_autoscaler.Crd.Selector.{Labels}
use kube_hardware_autoscaler.Crd.Spec.{NodeScalingPoolSpec}
use kube_hardware_autoscaler.Cluster.{Node, labels_in}
use kube_hardware_autoscaler.Drivers.Driver.{Result, ok, err}
use kube_hardware_autoscaler.Pool.Agreement.{preferred_node_problems}

-- The warnings of a review, and the refusal: the texts name the Nodes.
pub data Warning : Type 0 where
  no_longer_exist not_selected : List String → Warning
  deprecated_ignored deprecated_same deprecated_name : Warning

pub data Verdict : Type 0 where
  admit : List Warning → Verdict
  refuse : List String → Verdict

-- `ScaleDownSpec::deprecation_warning`, from the two settings.
abbrev pub deprecation_warning : Option ℕ → Option ℕ → List Warning
deprecation_warning (some new) (some old) =
    (if new == old then deprecated_same else deprecated_ignored) ∷ []
deprecation_warning none (some old) = deprecated_name ∷ []
deprecation_warning _ none = []

abbrev pub was_listed : Option NodeScalingPoolSpec → String → Bool
was_listed old n = is_some_and old (λ o. any (λ p. str_eq p.name n) o.scale_up.preferred_nodes)

abbrev about : (List String → Warning) → List String → List Warning
about warning names = if is_empty names then [] else warning names ∷ []

-- What is admitted, once no name is refused.
abbrev warnings : List String → List String → NodeScalingPoolSpec → List Warning
warnings kept outside new =
    about no_longer_exist kept
    ++ (about not_selected outside
        ++ deprecation_warning new.scale_down.hold_after_power_on_seconds
            new.scale_down.delay_after_scale_up_seconds)

unfoldable pub review_pool :
    NodeScalingPoolSpec → Option NodeScalingPoolSpec → (String → Option Labels) → Verdict
review_pool new old labels_of =
    let problems = preferred_node_problems new labels_of new.scale_up.preferred_nodes in
    let refused = filter (λ n. not (was_listed old n)) problems.0 in
    let kept = filter (was_listed old) problems.0 in
    if is_empty refused then admit (warnings kept problems.1 new) else refuse refused

pub data Operation : Type 0 where
  create update delete connect : Operation

-- `validate`, on a request that could be read: `nodes` is the store of Nodes.
pub record Request : Type 0 where
  pub operation : Operation
  pub object : Option NodeScalingPoolSpec
  pub old_object : Option NodeScalingPoolSpec

abbrev is_write : Operation → Bool
is_write Operation.create = true
is_write Operation.update = true
is_write _ = false

abbrev review_object : List Node → Option NodeScalingPoolSpec → Option NodeScalingPoolSpec → Verdict
review_object nodes none old = admit []
review_object nodes (some pool) old = review_pool pool old (labels_in nodes)

unfoldable pub validate : List Node → Request → Verdict
unfolding review_pool
validate nodes r =
    if is_write r.operation then review_object nodes r.object r.old_object else admit []

-- `Tls`: the CA, the certificate and the key.
pub record Tls : Type 0 where
  pub ca_pem : String
  pub cert_pem : String
  pub key_pem : String

-- The Secret: the DNS names and the expiry in its annotations, and the values that are UTF-8.
pub record Secret : Type 0 where
  pub dns_names : Option String
  pub not_after : Option Time
  pub text : List (String × String)

-- 30 days.
abbrev pub renewal : Time
renewal = 30 * 86400 * nanos

abbrev tls_of : Option String → Option String → Option String → Option Tls
tls_of (some ca) (some cert) (some key) =
    some (record { ca_pem = ca; cert_pem = cert; key_pem = key })
tls_of _ _ _ = none

-- `tls_from_secret`. The expiry is the annotation that RFC 3339 reads.
unfoldable pub tls_from_secret : Time → String → Secret → Option Tls
tls_from_secret now dns_names s =
    if not (is_some_and s.dns_names (λ d. str_eq d dns_names))
    then none
    else if not (is_some_and s.not_after (λ t. not (ltb t (now + renewal))))
    then none
    else tls_of (lookup "ca.crt" s.text) (lookup "tls.crt" s.text) (lookup "tls.key" s.text)

pub data TlsError : Type 0 where
  api issuing : String → TlsError
  could_not_store : TlsError

-- The answer to storing the Secret: 409 means that another process has written it first.
pub data Stored : Type 0 where
  stored conflict : Stored
  failed : String → Stored

-- One round of `ensure_tls`, as the outside answers it: the Secret, a fresh certificate, and the write
-- (a `create` without a Secret, otherwise a `replace`).
pub record Round : Type 0 where
  pub now : Time
  pub existing : Result (Option Secret) String
  pub issued : Result Tls String
  pub write : Tls → Stored

abbrev usable : Time → String → Option Secret → Option Tls
usable now dns_names none = none
usable now dns_names (some s) = tls_from_secret now dns_names s

-- The end of a round: a certificate, an error, or another round.
pub data Step : Type 0 where
  found issued_and_stored : Tls → Step
  failed_with : TlsError → Step
  again : Step

abbrev after_write : Tls → Stored → Step
after_write tls stored = issued_and_stored tls
after_write tls conflict = again
after_write tls (failed e) = failed_with (api e)

abbrev issue_and_store : Round → Step
issue_and_store r = elim r.issued [
  | err e ↦ failed_with (issuing e)
  | ok tls ↦ after_write tls (r.write tls)
]

abbrev unless_usable : Round → Option Tls → Step
unless_usable r (some tls) = found tls
unless_usable r none = issue_and_store r

unfoldable pub round : String → Round → Step
round dns_names r = elim r.existing [
  | err e ↦ failed_with (api e)
  | ok existing ↦ unless_usable r (usable r.now dns_names existing)
]

abbrev next_round : Step → Result Tls TlsError → Result Tls TlsError
next_round (found tls) later = ok tls
next_round (issued_and_stored tls) later = ok tls
next_round (failed_with e) later = err e
next_round again later = later

-- So many rounds, of which `at` gives the outside's answers by the number of rounds left.
rounds : String → ℕ → (ℕ → Round) → Result Tls TlsError
unfolding round
rounds dns_names zero at = err could_not_store
rounds dns_names (suc n) at =
    let later = rounds dns_names n at in next_round (round dns_names (at n)) later

-- `ensure_tls`: three rounds.
unfoldable pub ensure_tls : String → (ℕ → Round) → Result Tls TlsError
unfolding rounds
ensure_tls dns_names at = rounds dns_names 3 at

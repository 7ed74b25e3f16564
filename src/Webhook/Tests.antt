-- ===== src/Webhook/Tests.antt =====
-- Runs of the webhook (src/webhook.rs).
use kube_hardware_autoscaler.Base.{ℕ, suc, ◌*◌, ◌≡◌, refl, none, some, [], ◌∷◌, any}
use kube_hardware_autoscaler.Base.Time.{nanos}
use kube_hardware_autoscaler.Crd.Spec.{NodeScalingPoolSpec}
use kube_hardware_autoscaler.Cluster.{labels_in}
use kube_hardware_autoscaler.Drivers.Driver.{ok, err}
use kube_hardware_autoscaler.Pool.Agreement.{preferred_node_problems, note_problem}
use kube_hardware_autoscaler.Samples.{pool_spec, node}
use kube_hardware_autoscaler.Webhook.{
  Tls, Secret, tls_from_secret, Round, Stored, round, rounds, ensure_tls, refuse, review_pool,
  admit, no_longer_exist,
}
use kube_hardware_autoscaler.Webhook.Review.{is_refused, is_new_and_missing, is_refused-review_pool}
use kube_hardware_autoscaler.Webhook.Certificate.{Obtained, ensure_tls-Obtained}

-- A pool that prefers a Node which does not exist.
abbrev prefers : NodeScalingPoolSpec
prefers = record pool_spec {
  scale_up = record (pool_spec.scale_up) {
    preferred_nodes = record { name = "gone"; weight = 5 } ∷ [];
  };
}

is_refused-review_pool_example :
    is_refused (review_pool prefers none (labels_in (node ∷ [])))
    ≡ any (is_new_and_missing none (labels_in (node ∷ []))) prefers.scale_up.preferred_nodes
is_refused-review_pool_example = is_refused-review_pool prefers none (labels_in (node ∷ []))

new_is_refused : review_pool prefers none (labels_in (node ∷ [])) ≡ refuse ("gone" ∷ [])
unfolding review_pool preferred_node_problems note_problem
new_is_refused = refl

listed_is_admitted :
    review_pool prefers (some prefers) (labels_in (node ∷ []))
    ≡ admit (no_longer_exist ("gone" ∷ []) ∷ [])
unfolding review_pool preferred_node_problems note_problem
listed_is_admitted = refl

abbrev tls : Tls
tls = record { ca_pem = "ca"; cert_pem = "cert"; key_pem = "key" }

-- What the other process wrote, valid for 31 days.
abbrev theirs : Secret
theirs = record {
  dns_names = some "svc";
  not_after = some (31 * 86400 * nanos);
  text = ("ca.crt", "ca") ∷ (("tls.crt", "cert") ∷ (("tls.key", "key") ∷ []));
}

-- The first round's write meets a conflict, the second one reads the other process's Secret.
abbrev outside : ℕ → Round
outside (suc (suc n)) = record {
  now = 0;
  existing = ok none;
  issued = ok (record { ca_pem = "ours"; cert_pem = "ours"; key_pem = "ours" });
  write = λ t. Stored.conflict;
}
outside _ = record {
  now = 0;
  existing = ok (some theirs);
  issued = err "not asked";
  write = λ t. Stored.conflict;
}

second_try : ensure_tls "svc" outside ≡ ok tls
unfolding ensure_tls rounds round tls_from_secret
second_try = refl

ensure_tls-Obtained_example : Obtained "svc" 3 outside tls
ensure_tls-Obtained_example = ensure_tls-Obtained "svc" outside tls second_try

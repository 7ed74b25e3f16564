-- ===== src/Drivers/WakeOnLan/Tests.antt =====
-- Runs of the choice of relays (src/drivers/wol.rs).
use kube_hardware_autoscaler.Base.{◌≤◌, max, String, ◌≡◌, refl, some, List, [], ◌∷◌, length, All}
use kube_hardware_autoscaler.Crd.Selector.{Labels}
use kube_hardware_autoscaler.Cluster.{Node, node_ready, powered_off_annotation}
use kube_hardware_autoscaler.Drivers.WakeOnLan.{RelayConfig, pick_relays}
use kube_hardware_autoscaler.Drivers.WakeOnLan.Relays.{NameOfRelay, pick_relays-MayRelay}
use kube_hardware_autoscaler.Samples.{node}

abbrev here : Labels
here = ("zone", "a") ∷ []

abbrev node_at : String → Labels → Labels → Node
node_at name labels annotations = record node {
  name = name;
  labels = labels;
  annotations = annotations;
}

-- The target, two neighbours of which one is powered off by the operator, and a node elsewhere.
abbrev nodes : List Node
nodes =
    node_at "n1" here []
    ∷ node_at "n3" here []
    ∷ node_at "n2" here []
    ∷ node_at "n4" here ((powered_off_annotation, "2026") ∷ [])
    ∷ node_at "n5" (("zone", "b") ∷ []) []
    ∷ []

abbrev zone : RelayConfig
zone = record { same_topology_as = some "zone"; node_selector = []; max_nodes = 3 }

picks : pick_relays "n1" here nodes zone ≡ "n2" ∷ "n3" ∷ []
unfolding pick_relays node_ready
picks = refl

unlabelled_target : pick_relays "n1" [] nodes zone ≡ []
unfolding pick_relays
unlabelled_target = refl

pick_relays-MayRelay_example :
    All (NameOfRelay "n1" here zone nodes) (pick_relays "n1" here nodes zone)
    × (length (pick_relays "n1" here nodes zone) ≤ max zone.max_nodes 1)
pick_relays-MayRelay_example = pick_relays-MayRelay "n1" here zone nodes

-- ===== src/Drivers/WakeOnLan.antt =====
-- The Wake-on-LAN driver (src/drivers/wol.rs): which nodes relay a wake, and when a power-on
-- succeeds. What the API server and the network answer is given.
pub mod Relays
pub mod Tests
use kube_hardware_autoscaler.Base.{
  ℕ, max, String, Bool, true, false, ◌&&◌, not, Option, none, some, List, [], ◌∷◌, ◌++◌, map,
  str_eq, if◌then◌else◌, lookup, filter, all, take, is_empty, is_some, is_some_and, unwrap_or,
}
use kube_hardware_autoscaler.Crd.Enums.{PowerState}
use kube_hardware_autoscaler.Crd.Selector.{Labels, has_label}
use kube_hardware_autoscaler.Crd.Texts.{DriverError, config, interface}
use kube_hardware_autoscaler.Cluster.{Node, node_ready, has_annotation, powered_off_annotation}
use kube_hardware_autoscaler.Membership.{sort_names}
use kube_hardware_autoscaler.Base.Texts.{Chars}
use kube_hardware_autoscaler.Wake.{parse_mac}
use kube_hardware_autoscaler.Drivers.Driver.{Result, ok, err}

pub record RelayConfig : Type 0 where
  pub same_topology_as : Option String
  pub node_selector : Labels
  pub max_nodes : ℕ

pub record WakeOnLanConfig : Type 0 where
  pub mac_address : Chars
  pub broadcast_address : Option String
  pub port : ℕ
  pub send_from_operator : Bool
  pub relay : Option RelayConfig
  pub shutdown_image : Option String

pub record WakeOnLanDriver : Type 0 where
  pub config : WakeOnLanConfig
  pub mac : List ℕ
  pub shutdown_image : String

abbrev bad_broadcast : (String → Option ℕ) → Option String → Bool
bad_broadcast parse none = false
bad_broadcast parse (some b) = not (is_some (parse b))

-- `parse` is `str::parse::<Ipv4Addr>`; `image` is the operator's default.
unfoldable pub build :
    (String → Option ℕ) → String → WakeOnLanConfig → Result WakeOnLanDriver DriverError
build parse image c = elim (parse_mac c.mac_address) [
  | none ↦ err (config "invalid MAC address")
  | some mac ↦
      if bad_broadcast parse c.broadcast_address
      then err (config "invalid broadcastAddress")
      else if not c.send_from_operator && not (is_some c.relay)
      then err (config "sendFromOperator is false and no relay is configured")
      else ok (record { config = c; mac = mac; shutdown_image = unwrap_or c.shutdown_image image })
]

-- The topology label to match: none is asked for, the target does not carry it, or its value.
pub data Topology : Type 0 where
  anywhere unlabelled : Topology
  same : (key value : String) → Topology

abbrev topology_value : String → Option String → Topology
topology_value key none = Topology.unlabelled
topology_value key (some v) = Topology.same key v

abbrev topology_of : Option String → Labels → Topology
topology_of none labels = Topology.anywhere
topology_of (some key) labels = topology_value key (lookup key labels)

abbrev pub same_topology : Topology → Node → Bool
same_topology (Topology.same key value) n = has_label n.labels (key, value)
same_topology _ n = true

-- What `pick_relays` asks of a node.
abbrev pub qualifies : String → Topology → RelayConfig → Node → Bool
qualifies target topology cfg n =
    not (str_eq n.name target)
    && (node_ready n && not (has_annotation n powered_off_annotation))
    && all (has_label n.labels) cfg.node_selector
    && same_topology topology n

abbrev pub relay_names : String → Topology → RelayConfig → List Node → List String
relay_names target topology cfg nodes =
    sort_names (map (λ n. n.name) (filter (qualifies target topology cfg) nodes))

abbrev unless_unlabelled : Topology → List String → List String
unless_unlabelled Topology.unlabelled names = []
unless_unlabelled _ names = names

unfoldable pub pick_relays : String → Labels → List Node → RelayConfig → List String
pick_relays target target_labels nodes cfg =
    let topology = topology_of cfg.same_topology_as target_labels in
    unless_unlabelled topology (take (max cfg.max_nodes 1) (relay_names target topology cfg nodes))

-- What the API server answers to one wake: the target Node, the Nodes, the relay pods of earlier
-- wakes, and to each deletion (404 counts as deleted) and creation of a pod.
pub record Api : Type 0 where
  pub target : Result (Option Labels) DriverError
  pub nodes : Result (List Node) DriverError
  pub old : Result (List String) DriverError
  pub delete : String → Option DriverError
  pub create : String → Option DriverError

delete_all : Api → List String → Option DriverError
delete_all api [] = none
delete_all api (p ∷ ps) = elim (api.delete p) [ some e ↦ some e | none ↦ delete_all api ps ]

-- The relays whose pod could be created. A failure is only logged.
abbrev started : Api → List String → List String
started api relays = filter (λ r. not (is_some (api.create r))) relays

no_relays : Bool → DriverError
no_relays lacking =
    if lacking
    then interface "the Node has no such label to select relays by"
    else interface "no Ready node qualifies as a Wake-on-LAN relay"

lacks_label : RelayConfig → Labels → Bool
lacks_label cfg labels = is_some_and cfg.same_topology_as (λ key. not (is_some (lookup key labels)))

abbrev some_started : List String → Result (List String) DriverError
some_started names =
    if is_empty names then err (interface "no Wake-on-LAN relay pod could be started") else ok names

-- From the chosen relays on.
start_relays : Api → List String → Result (List String) DriverError
unfolding delete_all
start_relays api relays = elim api.old [
  | err e ↦ err e
  | ok pods ↦ elim (delete_all api pods) [
    | some e ↦ err e
    | none ↦ some_started (started api relays)
  ]
]

unfoldable pub wake_via_relays : Api → String → RelayConfig → Result (List String) DriverError
unfolding start_relays no_relays lacks_label
wake_via_relays api node_name cfg = elim api.target [
  | err e ↦ err e
  | ok target ↦ elim api.nodes [
    | err e ↦ err e
    | ok nodes ↦
        let labels = unwrap_or target [] in
        let relays = pick_relays node_name labels nodes cfg in
        if is_empty relays
        then err (no_relays (lacks_label cfg labels))
        else start_relays api relays
  ]
]

-- What a power-on has done so far.
pub record Waking : Type 0 where
  pub sent : Bool
  pub errors : List DriverError

abbrev record_send : {A : Type 0} → Result A DriverError → Waking → Waking
record_send (ok a) w = record w { sent = true }
record_send (err e) w = record w { errors = w.errors ++ (e ∷ []) }

abbrev relayed : Api → String → Option RelayConfig → Waking → Waking
relayed api node_name none w = w
relayed api node_name (some cfg) w = record_send (wake_via_relays api node_name cfg) w

-- A power-on that was not sent fails with what went wrong.
pub data PowerOnError : Type 0 where
  cancelling addressing : DriverError → PowerOnError
  not_sent : List DriverError → PowerOnError

abbrev verdict : Waking → Result (Unit {0}) PowerOnError
verdict w = if w.sent then ok tt else err (not_sent w.errors)

abbrev nothing_yet : Waking
nothing_yet = record { sent = false; errors = [] }

-- `cancelled` is the removal of an old shutdown pod, `targets` the addresses, `sending` the sending
-- from the operator's node.
unfoldable pub power_on :
    Option DriverError
    → Option DriverError
    → Result ℕ DriverError
    → Api
    → String
    → WakeOnLanConfig
    → Result (Unit {0}) PowerOnError
power_on (some e) targets sending api node_name c = err (cancelling e)
power_on none targets sending api node_name c =
    if c.send_from_operator
    then elim targets [
      | some e ↦ err (addressing e)
      | none ↦ verdict (relayed api node_name c.relay (record_send sending nothing_yet))
    ]
    else verdict (relayed api node_name c.relay nothing_yet)

-- The reading mirrors the Node's readiness.
unfoldable pub power_state : Result (Option Node) DriverError → Result PowerState DriverError
power_state (err e) = err e
power_state (ok none) = ok PowerState.off
power_state (ok (some n)) = ok (if node_ready n then PowerState.on else PowerState.off)

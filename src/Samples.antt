-- ===== src/Samples.antt =====
-- Concrete data for the tests: a machine, its interfaces, its pools, and what a reconcile reads.
use kube_hardware_autoscaler.Base.{
  ℕ, ◌*◌, String, Bool, true, false, Option, none, some, List, [], ◌∷◌,
}
use kube_hardware_autoscaler.Base.Int.{pos}
use kube_hardware_autoscaler.Base.Time.{nanos}
use kube_hardware_autoscaler.Crd.Enums.{
  Phase, PowerState, PowerPolicy, PowerOffMode, PowerOnFailurePolicy, ManualPowerOnPolicy,
}
use kube_hardware_autoscaler.Crd.Spec.{
  PowerInterface, LifecycleSpec, NodePowerManagementConfigSpec, NodeScalingPoolSpec,
}
use kube_hardware_autoscaler.Crd.Status.{NodePowerManagementConfigStatus}
use kube_hardware_autoscaler.Crd.Texts.{io}
use kube_hardware_autoscaler.Cluster.{Node, Pod}
use kube_hardware_autoscaler.Drivers.Driver.{ok, done, fail, late, PowerDriver}
use kube_hardware_autoscaler.Drivers.Chain.{Link, PowerChain}
use kube_hardware_autoscaler.Membership.{Pool}
use kube_hardware_autoscaler.Machine.Run.{Env, Machine, pending}
use kube_hardware_autoscaler.Machine.Gates.{World}

abbrev pub noon : ℕ
noon = 100000 * nanos

-- An interface that answers and one that does not.
abbrev pub good_driver : PowerDriver
good_driver = record {
  supports = λ a. true;
  power_state = done PowerState.on;
  power_on = done tt;
  power_off = λ force. done tt;
  system_id = done none;
}

abbrev pub dead_driver : PowerDriver
dead_driver = record {
  supports = λ a. true;
  power_state = late;
  power_on = fail (io "unreachable");
  power_off = λ force. fail (io "unreachable");
  system_id = late;
}

abbrev pub ipmi : PowerInterface
ipmi = record { name = none; driver = "ipmi"; actions = none; timeout_seconds = none }

abbrev pub redfish : PowerInterface
redfish = record { name = none; driver = "redfish"; actions = none; timeout_seconds = none }

abbrev pub dead_link : Link
dead_link = record { label = "ipmi"; interface = ipmi; driver = dead_driver; timeout = 20 }

abbrev pub good_link : Link
good_link = record { label = "redfish"; interface = redfish; driver = good_driver; timeout = 20 }

abbrev pub chain : PowerChain
chain = record { links = dead_link ∷ good_link ∷ []; unavailable = [] }

abbrev pub dead_chain : PowerChain
dead_chain = record { links = dead_link ∷ []; unavailable = [] }

abbrev pub lifecycle : LifecycleSpec
lifecycle = record {
  boot_timeout_seconds = some 600;
  drain_timeout_seconds = 600;
  shutdown_timeout_seconds = 300;
  force_after_drain_timeout = false;
  power_off_mode = PowerOffMode.shutdown;
}

abbrev pub config_spec : NodePowerManagementConfigSpec
config_spec = record {
  node_name = "n1";
  power_policy = PowerPolicy.auto;
  power_interfaces = ipmi ∷ redfish ∷ [];
  lifecycle = lifecycle;
  manual_power_on_policy = some ManualPowerOnPolicy.leave_on;
  manual_power_off_cooldown_seconds = none;
}

-- A machine that reads as on, in the phase given.
abbrev pub status_in : Phase → Bool → NodePowerManagementConfigStatus
status_in phase ready = record {
  phase = phase;
  phase_since = some 0;
  power_state = PowerState.on;
  node_ready = ready;
  pools = "pool" ∷ [];
  scaling_decision = none;
  conditions = [];
  interface_warnings = [];
  last_power_action = none;
  standby_since = none;
  standby_failed_at = none;
  sleep_support = none;
  manual_power_on = none;
  manual_power_off = none;
  powered_on_not_ready_since = none;
  boot_failure = none;
  forced_off_at = none;
  drain_failed_at = none;
  allocatable = none;
  node_labels = none;
  extended_resources = [];
  message = none;
}

abbrev pub node : Node
node = record {
  name = "n1";
  labels = ("role", "worker") ∷ [];
  annotations = [];
  unschedulable = none;
  taints = [];
  conditions = ("Ready", "True") ∷ [];
  allocatable = record { cpu_millis = pos 4000; memory_bytes = pos 8000; pods = pos 110 };
  extended = [];
  boot_id = none;
  system_uuid = none;
}

abbrev pub pod : Pod
pod = record {
  namespace = "default";
  name = "web";
  labels = [];
  annotations = [];
  owner_kinds = "ReplicaSet" ∷ [];
  phase = some "Running";
  deleted = false;
}

abbrev pub world : NodePowerManagementConfigStatus → Option Node → World
world old n = record {
  now = noon;
  dry_run = false;
  spec = config_spec;
  old = old;
  node = n;
  pools = [];
  pods = pod ∷ [];
  build_driver = λ i. ok good_driver;
  op_timeout = 20;
  cached_identity = none;
  lease_age = some (pos 5);
  run_in_band = λ c. ok tt;
  probe = ok pending;
  write = λ n. ok tt;
}

abbrev pub env : Env
env = record {
  now = noon;
  dry_run = false;
  spec = config_spec;
  node = some node;
  pods = pod ∷ [];
  run_in_band = λ c. ok tt;
  probe = ok pending;
  write = λ n. ok tt;
  chain = chain;
  boot_timeout = 600;
  manual_policy = ManualPowerOnPolicy.leave_on;
  power_on_failure_policy = PowerOnFailurePolicy.release;
  power_on_timeout = 600;
}

abbrev pub machine : NodePowerManagementConfigStatus → Machine
machine st = record { st = st; log = [] }

abbrev pub pool_spec : NodeScalingPoolSpec
pool_spec = record {
  node_selector = record { match_labels = ("role", "worker") ∷ []; match_expressions = [] };
  min_online = 0;
  max_online = some 3;
  scale_up = record {
    enabled = true;
    pending_pod_grace_seconds = 30;
    require_explicit_selection = false;
    max_nodes_per_step = 1;
    prefer_s3_capable = false;
    preferred_nodes = [];
    boot_timeout_seconds = none;
    boot_failure_backoff_seconds = 3600;
    power_on_timeout_seconds = none;
    power_on_failure_policy = PowerOnFailurePolicy.release;
  };
  scale_down = record {
    enabled = true;
    utilization_threshold_percent = 50;
    unneeded_seconds = 600;
    hold_after_power_on_seconds = none;
    delay_after_scale_up_seconds = none;
    drain_failure_backoff_seconds = 3600;
    ignore_daemon_set_utilization = true;
    ignore_non_selecting_pod_utilization = false;
    max_nodes_per_step = 1;
  };
  manual_power_on_policy = none;
  manual_power_on_grace_seconds = 600;
  manual_power_off_cooldown_seconds = none;
}

abbrev pub pool_named : String → List String → Pool
pool_named name releasable = record {
  name = name;
  deleted = false;
  spec = pool_spec;
  releasable = releasable;
  needed = [];
}

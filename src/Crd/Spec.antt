-- ===== src/Crd/Spec.antt =====
-- The specifications of both custom resources (src/crd.rs). `u32` and `u64` fields are numbers.
use kube_hardware_autoscaler.Base.{
  ℕ, String, Bool, Option, none, some, List, str_eq, find, or_option, unwrap_or,
}
use kube_hardware_autoscaler.Crd.Enums.{
  PowerPolicy, PowerOffMode, ManualPowerOnPolicy, PowerOnFailurePolicy, InterfaceAction,
}
use kube_hardware_autoscaler.Crd.Selector.{NodeSelector}

pub record PreferredNode : Type 0 where
  pub name : String
  pub weight : ℕ

pub record ScaleUpSpec : Type 0 where
  pub enabled : Bool
  pub pending_pod_grace_seconds : ℕ
  pub require_explicit_selection : Bool
  pub max_nodes_per_step : ℕ
  pub prefer_s3_capable : Bool
  pub preferred_nodes : List PreferredNode
  pub boot_timeout_seconds : Option ℕ
  pub boot_failure_backoff_seconds : ℕ
  pub power_on_timeout_seconds : Option ℕ
  pub power_on_failure_policy : PowerOnFailurePolicy

pub record ScaleDownSpec : Type 0 where
  pub enabled : Bool
  pub utilization_threshold_percent : ℕ
  pub unneeded_seconds : ℕ
  pub hold_after_power_on_seconds : Option ℕ
  pub delay_after_scale_up_seconds : Option ℕ
  pub drain_failure_backoff_seconds : ℕ
  pub ignore_daemon_set_utilization : Bool
  pub ignore_non_selecting_pod_utilization : Bool
  pub max_nodes_per_step : ℕ

pub record NodeScalingPoolSpec : Type 0 where
  pub node_selector : NodeSelector
  pub min_online : ℕ
  pub max_online : Option ℕ
  pub scale_up : ScaleUpSpec
  pub scale_down : ScaleDownSpec
  pub manual_power_on_policy : Option ManualPowerOnPolicy
  pub manual_power_on_grace_seconds : ℕ
  pub manual_power_off_cooldown_seconds : Option ℕ

pub record PowerInterface : Type 0 where
  pub name : Option String
  pub driver : String
  pub actions : Option (List InterfaceAction)
  pub timeout_seconds : Option ℕ

pub record LifecycleSpec : Type 0 where
  pub boot_timeout_seconds : Option ℕ
  pub drain_timeout_seconds : ℕ
  pub shutdown_timeout_seconds : ℕ
  pub force_after_drain_timeout : Bool
  pub power_off_mode : PowerOffMode

pub record NodePowerManagementConfigSpec : Type 0 where
  pub node_name : String
  pub power_policy : PowerPolicy
  pub power_interfaces : List PowerInterface
  pub lifecycle : LifecycleSpec
  pub manual_power_on_policy : Option ManualPowerOnPolicy
  pub manual_power_off_cooldown_seconds : Option ℕ

-- `ScaleUpSpec::node_weight`.
unfoldable pub node_weight : ScaleUpSpec → String → ℕ
node_weight s node = elim (find (λ p. str_eq p.name node) s.preferred_nodes) [
  | none ↦ 0
  | some p ↦ p.weight
]

abbrev pub default_hold_after_power_on_seconds : ℕ
default_hold_after_power_on_seconds = 600

-- `ScaleDownSpec::hold_after_power_on`.
unfoldable pub hold_after_power_on : ScaleDownSpec → ℕ
hold_after_power_on s =
    unwrap_or (or_option s.hold_after_power_on_seconds s.delay_after_scale_up_seconds)
      default_hold_after_power_on_seconds

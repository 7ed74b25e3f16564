-- ===== src/Crd/Status.antt =====
-- The status of a machine (`NodePowerManagementConfigStatus`) and of a pool (src/crd.rs).
use kube_hardware_autoscaler.Base.{String, Bool, Option, List}
use kube_hardware_autoscaler.Base.Int.{ℤ}
use kube_hardware_autoscaler.Base.Time.{Time}
use kube_hardware_autoscaler.Crd.Enums.{
  Phase, PowerState, PowerTarget, ManualPowerOnPolicy, PowerAction,
}
use kube_hardware_autoscaler.Crd.Texts.{Warning, Message}
use kube_hardware_autoscaler.Crd.Amounts.{ResourceAmounts}
use kube_hardware_autoscaler.Crd.Selector.{Labels}

pub record ScalingDecision : Type 0 where
  pub pool : String
  pub target : PowerTarget
  pub time : Time

pub record Condition : Type 0 where
  pub kind : String
  pub status : String
  pub reason : String
  pub last_transition_time : Time

pub record ManualPowerChange : Type 0 where
  pub time : Time
  pub policy : Option ManualPowerOnPolicy

pub record BootFailure : Type 0 where
  pub time : Time
  pub left_on : Bool

pub record SleepSupport : Type 0 where
  pub boot_id : String
  pub s3 : Bool
  pub detail : String

pub record PowerActionRecord : Type 0 where
  pub action : PowerAction
  pub time : Time
  pub succeeded : Bool
  pub via : Option String

pub record NodePowerManagementConfigStatus : Type 0 where
  pub phase : Phase
  pub phase_since : Option Time
  pub power_state : PowerState
  pub node_ready : Bool
  pub pools : List String
  pub scaling_decision : Option ScalingDecision
  pub conditions : List Condition
  pub interface_warnings : List Warning
  pub last_power_action : Option PowerActionRecord
  pub standby_since : Option Time
  pub standby_failed_at : Option Time
  pub sleep_support : Option SleepSupport
  pub manual_power_on : Option ManualPowerChange
  pub manual_power_off : Option ManualPowerChange
  pub powered_on_not_ready_since : Option Time
  pub boot_failure : Option BootFailure
  pub forced_off_at : Option Time
  pub drain_failed_at : Option Time
  pub allocatable : Option ResourceAmounts
  pub node_labels : Option Labels
  pub extended_resources : List (String × ℤ)
  pub message : Option Message

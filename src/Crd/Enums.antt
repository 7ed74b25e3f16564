-- ===== src/Crd/Enums.antt =====
-- The enumerations of src/crd.rs. Values that the source tells apart by `==` have a test here.
use kube_hardware_autoscaler.Base.{ℕ, Bool, true, false, ◌==◌}

pub data Phase : Type 0 where
  unknown powering_on on draining powering_off off standby error boot_failed : Phase

pub data PowerState : Type 0 where
  on off unknown : PowerState

pub data PowerTarget : Type 0 where
  on off : PowerTarget

pub data PowerPolicy : Type 0 where
  auto always_on always_off : PowerPolicy

pub data PowerOffMode : Type 0 where
  shutdown standby auto : PowerOffMode

pub data ManualPowerOnPolicy : Type 0 where
  leave_on adopt power_off : ManualPowerOnPolicy

pub data PowerOnFailurePolicy : Type 0 where
  release retry : PowerOnFailurePolicy

pub data InterfaceAction : Type 0 where
  status power_on power_off : InterfaceAction

pub data DecisionAction : Type 0 where
  power_on power_off no_action : DecisionAction

-- The four texts that `PowerActionRecord.action` holds and `Reconciler::act` is called with.
pub data PowerAction : Type 0 where
  power_on power_off force_off standby : PowerAction

abbrev phase_index : Phase → ℕ
phase_index Phase.unknown = 0
phase_index Phase.powering_on = 1
phase_index Phase.on = 2
phase_index Phase.draining = 3
phase_index Phase.powering_off = 4
phase_index Phase.off = 5
phase_index Phase.standby = 6
phase_index Phase.error = 7
phase_index Phase.boot_failed = 8

abbrev pub phase_eq : Phase → Phase → Bool
phase_eq p q = phase_index p == phase_index q

abbrev action_index : PowerAction → ℕ
action_index PowerAction.power_on = 0
action_index PowerAction.power_off = 1
action_index PowerAction.force_off = 2
action_index PowerAction.standby = 3

abbrev pub action_eq : PowerAction → PowerAction → Bool
action_eq a b = action_index a == action_index b

abbrev interface_action_index : InterfaceAction → ℕ
interface_action_index InterfaceAction.status = 0
interface_action_index InterfaceAction.power_on = 1
interface_action_index InterfaceAction.power_off = 2

abbrev pub interface_action_eq : InterfaceAction → InterfaceAction → Bool
interface_action_eq a b = interface_action_index a == interface_action_index b

abbrev pub reads_on : PowerState → Bool
reads_on PowerState.on = true
reads_on _ = false

abbrev pub reads_off : PowerState → Bool
reads_off PowerState.off = true
reads_off _ = false

abbrev pub targets_on : PowerTarget → Bool
targets_on PowerTarget.on = true
targets_on PowerTarget.off = false

abbrev pub is_auto : PowerPolicy → Bool
is_auto PowerPolicy.auto = true
is_auto _ = false

abbrev pub is_auto_mode : PowerOffMode → Bool
is_auto_mode PowerOffMode.auto = true
is_auto_mode _ = false

abbrev pub is_leave_on : ManualPowerOnPolicy → Bool
is_leave_on ManualPowerOnPolicy.leave_on = true
is_leave_on _ = false

abbrev pub is_release : PowerOnFailurePolicy → Bool
is_release PowerOnFailurePolicy.release = true
is_release PowerOnFailurePolicy.retry = false

abbrev pub is_no_action : DecisionAction → Bool
is_no_action DecisionAction.no_action = true
is_no_action _ = false

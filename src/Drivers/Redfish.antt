-- ===== src/Drivers/Redfish.antt =====
-- The Redfish driver (src/drivers/redfish.rs). What the BMC answers is given, by the fields that are
-- read of it.
use kube_hardware_autoscaler.Base.{
  String, Bool, ◌||◌, Option, none, some, str_eq, if◌then◌else◌, unwrap_or,
}
use kube_hardware_autoscaler.Crd.Enums.{PowerState}
use kube_hardware_autoscaler.Crd.Texts.{DriverError, interface}
use kube_hardware_autoscaler.Drivers.Driver.{Result, ok, err}
use kube_hardware_autoscaler.Drivers.InBand.{and_then}

-- A ComputerSystem: its `PowerState`, its `UUID`, and the target of `#ComputerSystem.Reset`.
pub record System : Type 0 where
  pub power : Option String
  pub uuid : Option String
  pub reset_target : Option String

pub data ResetType : Type 0 where
  on graceful_shutdown force_off : ResetType

-- The BMC: the first member of `/redfish/v1/Systems`, the system at a path, and the answer to a reset.
-- `default_target` and `path_of` are the texts that the driver forms from an id or a path.
pub record Bmc : Type 0 where
  pub members : Result (Option String) DriverError
  pub system : String → Result System DriverError
  pub post : String → ResetType → Result (Unit {0}) DriverError
  pub default_target : String → String
  pub path_of : String → String

abbrev some_member : Option String → Result String DriverError
some_member none = err (interface "no ComputerSystem found at /redfish/v1/Systems")
some_member (some p) = ok p

abbrev resolve : Bmc → Option String → Result String DriverError
resolve bmc (some id) = ok (bmc.path_of id)
resolve bmc none = and_then bmc.members some_member

-- The cell keeps the first path that was found; a failure leaves it empty.
unfoldable pub system_path : Bmc → Option String → Option String → Result String DriverError
system_path bmc id (some cached) = ok cached
system_path bmc id none = resolve bmc id

module _ (bmc : Bmc) (id cell : Option String) where
  unfoldable pub reset : ResetType → Result (Unit {0}) DriverError
  unfolding system_path
  reset kind = and_then (system_path bmc id cell) (λ path.
      and_then (bmc.system path)
        (λ sys. bmc.post (unwrap_or sys.reset_target (bmc.default_target path)) kind))

  abbrev parse_power_state : Option String → PowerState
  parse_power_state none = PowerState.unknown
  parse_power_state (some s) =
      if str_eq s "On" || str_eq s "PoweringOn" || str_eq s "PoweringOff"
      then PowerState.on
      else if str_eq s "Off"
      then PowerState.off
      else PowerState.unknown

  abbrev known : PowerState → Result PowerState DriverError
  known PowerState.unknown = err (interface "unexpected PowerState")
  known s = ok s

  unfoldable pub power_state : Result PowerState DriverError
  unfolding system_path
  power_state =
      and_then (system_path bmc id cell)
        (λ path. and_then (bmc.system path) (λ sys. known (parse_power_state sys.power)))

  unfoldable pub power_on : Result (Unit {0}) DriverError
  unfolding reset
  power_on = reset ResetType.on

  unfoldable pub power_off : Bool → Result (Unit {0}) DriverError
  unfolding reset
  power_off force = reset (if force then ResetType.force_off else ResetType.graceful_shutdown)

  unfoldable pub system_id : Result (Option String) DriverError
  unfolding system_path
  system_id =
      and_then (system_path bmc id cell) (λ path. and_then (bmc.system path) (λ sys. ok sys.uuid))

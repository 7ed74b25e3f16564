-- ===== src/Drivers/PiKvm.antt =====
-- The PiKVM driver (src/drivers/pikvm.rs). What the device answers is given.
use kube_hardware_autoscaler.Base.{Bool, true, false, ◌||◌, not, Option, none, some, if◌then◌else◌}
use kube_hardware_autoscaler.Crd.Enums.{PowerState}
use kube_hardware_autoscaler.Crd.Texts.{DriverError, interface}
use kube_hardware_autoscaler.Drivers.Driver.{Result, ok, err}
use kube_hardware_autoscaler.Drivers.InBand.{and_then}

-- An HTTP answer: whether the status is a success, whether the body's `ok` is true, and the power LED
-- in it.
pub record Reply : Type 0 where
  pub success : Bool
  pub ok_field : Bool
  pub led : Option Bool

pub data Action : Type 0 where
  on off off_hard : Action

pub record Device : Type 0 where
  pub state : Result Reply DriverError
  pub act : Action → Result Reply DriverError

-- `PiKvmDriver::send`, from the answer on.
send : Result Reply DriverError → Result Reply DriverError
send answer =
    and_then answer
      (λ r. if not r.success || not r.ok_field then err (interface "request refused") else ok r)

action : Device → Action → Result (Unit {0}) DriverError
unfolding send
action d a = and_then (send (d.act a)) (λ r. ok tt)

abbrev parse_atx : Option Bool → PowerState
parse_atx (some true) = PowerState.on
parse_atx (some false) = PowerState.off
parse_atx none = PowerState.unknown

abbrev known : PowerState → Result PowerState DriverError
known PowerState.unknown = err (interface "unexpected atx state")
known s = ok s

unfoldable pub power_state : Device → Result PowerState DriverError
unfolding send
power_state d = and_then (send d.state) (λ r. known (parse_atx r.led))

unfoldable pub power_on : Device → Result (Unit {0}) DriverError
unfolding action
power_on d = action d Action.on

unfoldable pub power_off : Device → Bool → Result (Unit {0}) DriverError
unfolding action
power_off d force = action d (if force then Action.off_hard else Action.off)

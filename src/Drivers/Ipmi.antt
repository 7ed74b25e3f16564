-- ===== src/Drivers/Ipmi.antt =====
-- The IPMI driver (src/drivers/ipmi.rs), over the `ipmi` crate: what a session answers is given.
use kube_hardware_autoscaler.Base.{
  ℕ, max, String, Bool, Option, none, some, List, str_eq, if◌then◌else◌,
}
use kube_hardware_autoscaler.Crd.Enums.{PowerState}
use kube_hardware_autoscaler.Crd.Texts.{DriverError, config, interface, timeout}
use kube_hardware_autoscaler.Drivers.Driver.{Result, ok, err}
use kube_hardware_autoscaler.Drivers.InBand.{and_then}

pub record IpmiConfig : Type 0 where
  pub address : String
  pub port : ℕ
  pub request_timeout_ms : ℕ
  pub attempts : ℕ

-- The credentials come as a result, since the driver requires them.
unfoldable pub build :
    IpmiConfig → Result String DriverError → Result (IpmiConfig × String) DriverError
build c creds =
    if str_eq c.address ""
    then err (config "ipmi address must not be empty")
    else and_then creds (λ username. ok (c, username))

pub data ChassisControl : Type 0 where
  power_up power_down acpi_soft : ChassisControl

-- How the blocking task of a session ends: within the driver's timeout or not, and where it does, with
-- a panic, an error of the client or a value.
pub data Task (A : Type 0) : Type 0 where
  late : Task A
  panicked : String → Task A
  failed : String → Task A
  finished : A → Task A

ended : {A : Type 0} → ℕ → Task A → Result A DriverError
ended op_timeout late = err (timeout op_timeout)
ended op_timeout (panicked why) = err (interface why)
ended op_timeout (failed why) = err (interface why)
ended op_timeout (finished a) = ok a

-- A session is opened only if the address resolves; so many attempts are made for each request, but
-- at least one.
unfoldable pub session :
    {A : Type 0} → IpmiConfig → ℕ → Option DriverError → (ℕ → Task A) → Result A DriverError
unfolding ended
session c op_timeout (some e) task = err e
session c op_timeout none task = ended op_timeout (task (max c.attempts 1))

-- What the BMC answers to the requests of a session with so many attempts.
pub record Bmc : Type 0 where
  pub unresolved : Option DriverError
  pub guid : ℕ → Task (List ℕ)
  pub is_on : ℕ → Task Bool
  pub control : ChassisControl → ℕ → Task (Unit {0})

module _ (c : IpmiConfig) (op_timeout : ℕ) (bmc : Bmc) where
  unfoldable pub system_id : Result (List ℕ) DriverError
  unfolding session
  system_id = session c op_timeout bmc.unresolved bmc.guid

  unfoldable pub power_state : Result PowerState DriverError
  unfolding session
  power_state =
      and_then (session c op_timeout bmc.unresolved bmc.is_on)
        (λ on. ok (if on then PowerState.on else PowerState.off))

  control : ChassisControl → Result (Unit {0}) DriverError
  unfolding session
  control action = session c op_timeout bmc.unresolved (bmc.control action)

  unfoldable pub power_on : Result (Unit {0}) DriverError
  unfolding control
  power_on = control ChassisControl.power_up

  unfoldable pub power_off : Bool → Result (Unit {0}) DriverError
  unfolding control
  power_off force = control (if force then ChassisControl.power_down else ChassisControl.acpi_soft)

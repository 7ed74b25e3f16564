-- ===== src/Crd/Texts.antt =====
-- Texts that the status fields hold, by the values that the source formats them from: driver errors
-- (src/drivers/mod.rs), interface warnings (src/drivers/chain.rs) and the machine controller's
-- messages (src/controller/node_power_management_config.rs).
use kube_hardware_autoscaler.Base.{ℕ, String, List}
use kube_hardware_autoscaler.Crd.Enums.{InterfaceAction, PowerAction}

-- The errors of other crates (`kube`, `reqwest`, `std::io`) are their texts.
pub data DriverError : Type 0 where
  config credentials kube http interface io : String → DriverError
  timeout : (nanoseconds : ℕ) → DriverError

-- `"label: error"`, an interface that an identity mismatch disabled, or no interface for an action.
pub data Warning : Type 0 where
  failed : (label : String) (error : DriverError) → Warning
  different_machine : (label : String) (reported expected : List ℕ) → Warning
  not_enabled : InterfaceAction → Warning

-- Why `Reconciler::act` or `PowerChain::build` failed: the text lists the warnings.
pub data ChainError : Type 0 where
  all_failed : List Warning → ChainError
  no_interfaces : ChainError
  none_built : List Warning → ChainError
  in_band : DriverError → ChainError

pub data Message : Type 0 where
  build_failed : ChainError → Message
  cannot_read_power_state : ChainError → Message
  action_failed : PowerAction → ChainError → Message
  no_wake_forced_off : (seconds : ℕ) → Message
  waiting_for_shutdown : Message
  not_powered_on : (node : String) (seconds : ℕ) → Message
  forcing_power_off : (seconds : ℕ) → Message
  refusing_power_off : (node : String) → Message
  checking_sleep : Message
  waiting_for_pods : (remaining : ℕ) (blocked : List String) → Message
  drain_timed_out_forced : (remaining : ℕ) (blocked : List String) → Message
  drain_timed_out : (seconds remaining : ℕ) (blocked : List String) → Message
  boot_failed : (node : String) (minutes : ℕ) → Message
  node_not_found : (node : String) → Message
  power_state_contradicts : Message

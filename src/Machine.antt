-- ===== src/Machine.antt =====
-- The machine controller (src/controller/node_power_management_config.rs): it drives one machine
-- towards its desired power state.
pub mod Tests
pub mod Rules
pub mod Boot
pub mod Run
pub mod Sleep
pub mod Commands
pub mod On
pub mod Off
pub mod Events
pub mod Gates
pub mod Reconcile
pub mod Clock

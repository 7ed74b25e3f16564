-- ===== src/Drivers.antt =====
-- The power drivers (src/drivers).
pub mod Driver
pub mod Chain
pub mod InBand
pub mod WakeOnLan
pub mod JetKvm
pub mod NanoKvm
pub mod Redfish
pub mod PiKvm
pub mod Ipmi
pub mod Catalog
pub mod Ping
pub mod Echo

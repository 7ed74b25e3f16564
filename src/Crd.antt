-- ===== src/Crd.antt =====
-- The custom resources (src/crd.rs): their fields as data, and the functions that crd.rs defines.
pub mod Enums
pub mod Texts
pub mod Amounts
pub mod Selector
pub mod Spec
pub mod Effective
pub mod Status
pub mod Conditions

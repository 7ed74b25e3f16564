-- ===== src/Controller.antt =====
-- What the controllers share (src/controller/mod.rs): status patches, warnings that are logged once,
-- and the cache of identity checks.
pub mod Patch
pub mod Memory
pub mod Tests
